-- ===== src/System/Origin.antt =====
-- Where the messages of a thread and the entries of the log come from, under any interleaving of the
-- goroutines of a node (pbft/network/node.go).
use pa_bft.Base.{int64_key, ℕ, ◌≡◌, ◌≢◌, Option, none, some, List, [], ◌∷◌, arith}
use pa_bft.Base.Map.{lookup}
use pa_bft.Base.Chan.{Chan, take}
use pa_bft.Base.Outcome.{ok}
use pa_bft.Message.{Message, PrepareMsg, VoteRef, voted}
use pa_bft.State.{State, verify_msg, wrong_sequence}
use pa_bft.Node.{Node, NodeInfo}
use pa_bft.Node.Primary.{update_view_id}
use pa_bft.Node.Threads.{Env}
use pa_bft.Server.{Wire, new_node}
use pa_bft.System.{System, Run, stay, go}
use pa_bft.System.Mail.{All, All-take, number_of, IfSome, Carries, IsHeard}
use pa_bft.System.Answering.{IsRange}
use pa_bft.System.Arriving.{IsOfAll}
use pa_bft.System.Validity.{IsValid}
use pa_bft.System.Viewing.{WholeRun, inner, ends, goes_on}
use pa_bft.System.Renewing.{WholeRun-IsValid}

-- A run without a view change is one of the whole node.
pub Run-WholeRun : (env : Env) (w : Wire) (a b : System) → Run env w a b → WholeRun env w a b
Run-WholeRun env w a b (stay sys) = ends sys
Run-WholeRun env w a b (go x y z step rest) =
    goes_on x y z (inner x y step) (Run-WholeRun env w y z rest)

pub WholeRun-append :
    (env : Env) (w : Wire) (a b c : System)
    → WholeRun env w a b
    → WholeRun env w b c
    → WholeRun env w a c
WholeRun-append env w a b c (ends sys) rest = rest
WholeRun-append env w a b c (goes_on x y z step more) rest =
    goes_on x y c step (WholeRun-append env w y z c more rest)

pub Run-append :
    (env : Env) (w : Wire) (a b c : System) → Run env w a b → Run env w b c → Run env w a c
Run-append env w a b c (stay sys) rest = rest
Run-append env w a b c (go x y z step more) rest = go x y c step (Run-append env w y z c more rest)

module _ (P : PrepareMsg → Type 0) where
  pub new_node-IsHeard :
      (info : NodeInfo) (table : List NodeInfo) (seeds : List (List NodeInfo)) (view_id : ℕ)
      (node : Node)
      → new_node info table seeds view_id ≡ ok node
      → IsHeard P node
  unfolding new_node update_view_id lookup
  new_node-IsHeard info table seeds view_id node made =
      let entrance : node.msg_entrance.queue ≡ [] = ground arith in
      let views : node.view_msg_entrance.queue ≡ [] = ground arith in
      let delivery : node.msg_delivery.queue ≡ [] = ground arith in
      let execution : node.msg_execution.queue ≡ [] = ground arith in
      let states : node.states ≡ [] = ground arith in
      let log : node.committed_msgs ≡ [] = ground arith in
      record {
        entrance = rw entrance tt;
        delivery = rw delivery tt;
        views = rw views tt;
        execution = rw execution tt;
        threads = rw states (λ k s e. cc);
        log = rw log (λ k p e. cc);
      }

  -- From a new node on.
  reached-IsValid :
      (env : Env) (w : Wire) (info : NodeInfo) (table : List NodeInfo)
      (seeds : List (List NodeInfo)) (view_id : ℕ) (node : Node) (a : System)
      → IsRange env.first
      → IsOfAll P w
      → new_node info table seeds view_id ≡ ok node
      → WholeRun env w (record { node = node; pairs = [] }) a
      → IsValid P a
  unfolding lookup
  reached-IsValid env w info table seeds view_id node a range all made run =
      WholeRun-IsValid P env w (record { node = node; pairs = [] }) a range all run
        (record {
          heard = new_node-IsHeard info table seeds view_id node made;
          waiting = λ k p e. cc;
        })

-- A node executes only what it has received, under any interleaving, view changes included: a property
-- of every proposal that can be read from a PREPARE message or a vote, and of every empty proposal that
-- the node makes where none has come in time or a new view fills its log, is a property of every
-- proposal in the log. The entry that a `range` yields first is taken to stand in its map.
pub WholeRun-executes_received :
    (P : PrepareMsg → Type 0) (env : Env) (w : Wire) (info : NodeInfo) (table : List NodeInfo)
    (seeds : List (List NodeInfo)) (view_id : ℕ) (node : Node) (a : System)
    → IsRange env.first
    → IsOfAll P w
    → new_node info table seeds view_id ≡ ok node
    → WholeRun env w (record { node = node; pairs = [] }) a
    → (k : ℕ) (p : PrepareMsg) → lookup k a.node.committed_msgs ≡ some p
    → P p
WholeRun-executes_received P env w info table seeds view_id node a range all made run k p at =
    (reached-IsValid P env w info table seeds view_id node a range all made run).heard.log k p at

-- What stands in the queue is for the sequence number.
abbrev pub IsMailOf : ℕ → List Message → Type 0
IsMailOf seq queue = All (λ m. number_of m ≡ seq) queue

mail_of :
    (seq : ℕ) (queue : List Message)
    → All (λ m. (number_of m ≡ seq) × Carries (λ p. Unit {0}) m) queue
    → IsMailOf seq queue
mail_of seq [] h = tt
mail_of seq (m ∷ queue) h = (h.0.0, mail_of seq queue h.1)

proposal_of :
    (seq : ℕ) (p : Option PrepareMsg)
    → IfSome (λ q. (q.sequence_id ≡ seq) × Unit {0}) p
    → IfSome (λ q. q.sequence_id ≡ seq) p
proposal_of seq none h = tt
proposal_of seq (some p) h = h.0

-- In a running node, under any interleaving, view changes included, the thread of a sequence number has
-- a state with this number, a queue of messages with this number only, and a proposal, if any, with this
-- number; so `verifyMsg` never reports a wrong sequence number for a vote that the thread receives.
pub WholeRun-routes :
    (env : Env) (w : Wire) (info : NodeInfo) (table : List NodeInfo) (seeds : List (List NodeInfo))
    (view_id : ℕ) (node : Node) (a : System)
    → IsRange env.first
    → new_node info table seeds view_id ≡ ok node
    → WholeRun env w (record { node = node; pairs = [] }) a
    → (k : ℕ) (s : State) → lookup k a.node.states ≡ some s
    → (s.sequence_id ≡ k)
      × IsMailOf k s.msg_state.queue
      × IfSome (λ p. p.sequence_id ≡ k) s.msg_logs.prepare_msg
      × ((r : VoteRef) (rest : Chan Message) (i j : ℕ)
          → take s.msg_state ≡ some (voted r, rest)
          → verify_msg s r.msg.view_id r.msg.sequence_id r.msg.digest ≢ some (wrong_sequence i j))
unfolding verify_msg
WholeRun-routes env w info table seeds view_id node a range made run k s at =
    let any : IsOfAll (λ p. Unit {0}) w = record {
      in_prepares = λ text p e. tt;
      in_votes = λ text. any_vote (w.read_vote text).msg.prepare_msg;
      in_null = λ seq. tt;
      in_empty = λ node seq. tt;
    } in
    let v =
      reached-IsValid (λ p. Unit {0}) env w info table seeds view_id node a range any made run in
    let t = v.heard.threads k s at in
    (
      t.numbered,
      mail_of k s.msg_state.queue t.mail,
      proposal_of k s.msg_logs.prepare_msg t.proposal,
      λ r rest i j got h.
          let (c, left) = All-take _ s.msg_state rest (voted r) t.mail got in
          ground (arith, h, c.0, t.numbered),
    )
  where
    any_vote : (p : Option PrepareMsg) → IfSome (λ p. Unit {0}) p
    any_vote none = tt
    any_vote (some p) = tt
