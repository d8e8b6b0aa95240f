-- ===== src/System/Safety.antt =====
-- The log of the executor under any interleaving of the goroutines of a node (pbft/network/node.go).
use mathlib.Core.Path.{sym, ◌∙◌, ap}
use mathlib.Core.List.{append-nil, append_assoc}
use pa_bft.Base.{int64_key, ℕ, ◌≤◌, ◌≡◌, refl, Option, none, some, List, [], ◌++◌, arith}
use pa_bft.Base.Outcome.{ok}
use pa_bft.Message.{PrepareMsg}
use pa_bft.Node.{Node, NodeInfo}
use pa_bft.Node.Primary.{update_view_id}
use pa_bft.Node.Threads.{Env}
use pa_bft.Node.Execute.{Pairs, execute_msg}
use pa_bft.Node.Log.{IsKeyed}
use pa_bft.Node.Order.{IsOrdered}
use pa_bft.Node.Rounds.{execute_msg-Executed}
use pa_bft.Server.{Wire, new_node}
use pa_bft.Server.Genesis.{send_genesis_msg_if_primary-frame}
use pa_bft.System.{
  System, Step, Run, receives, dispatches, resolves, handles, ends_prepare, ends_vote, ends_collate,
  executes, sends, prints, begins, marks_late, signals, stay, go, put_state,
}
use pa_bft.System.Marks.{execute_msg-prepared}
use pa_bft.System.Frames.{
  SameLog, receive-SameLog, dispatch_entrance-SameLog, resolve_msg-SameLog, handle-SameLog,
  expire_prepare-SameLog, expire_vote-SameLog, expire_collate-SameLog, send_msg-SameLog,
  log_error_msg-SameLog, late_mark-SameLog,
}

-- The log is in order and each proposal waits under its own number.
record IsSound (sys : System) : Type 0 where
  ordered : IsOrdered sys.node
  keyed : IsKeyed sys.pairs
  marked : (i : ℕ) → sys.node.prepared i ≤ 2

-- The second log is the first one with entries appended.
abbrev pub IsExtended : Node → Node → Type 0
IsExtended node node' =
    (added : List (ℕ × PrepareMsg)) × (node'.committed_msgs ≡ node.committed_msgs ++ added)

SameLog-IsSound :
    (node node' : Node) (pairs : Pairs)
    → SameLog node node'
    → IsSound (record { node = node; pairs = pairs })
    → IsSound (record { node = node'; pairs = pairs }) × IsExtended node node'
SameLog-IsSound node node' pairs l s = (
  record {
    ordered = record {
      log = rw l.log s.ordered.log;
      short = rw l.log s.ordered.short;
      counted = λ i. rw (l.log, l.counted) (s.ordered.counted i);
    };
    keyed = s.keyed;
    marked = λ i. l.marked i (s.marked i);
  },
  ([], l.log ∙ sym (append-nil node.committed_msgs)),
)

executes-IsSound :
    (node node' : Node) (pairs pairs' : Pairs) (received : Option PrepareMsg)
    → IsOrdered node
    → IsKeyed pairs
    → ((i : ℕ) → node.prepared i ≤ 2)
    → execute_msg node pairs received ≡ ok (node', pairs')
    → IsSound (record { node = node'; pairs = pairs' }) × IsExtended node node'
executes-IsSound node node' pairs pairs' none o k m h = unfold execute_msg in cc
executes-IsSound node node' pairs pairs' (some p) o k m h =
    let x = execute_msg-Executed node node' pairs pairs' p o k h in
    let same = execute_msg-prepared node node' pairs pairs' p h in
    (
      record { ordered = x.ordered; keyed = x.keyed; marked = λ i. rw same (m i) },
      (x.added, x.appended),
    )

Step-IsSound :
    (env : Env) (w : Wire) (a b : System)
    → Step env w a b
    → IsSound a
    → IsSound b × IsExtended a.node b.node
Step-IsSound env w a b (receives sender message node node' pairs h) s =
    SameLog-IsSound node node' pairs (receive-SameLog w sender node node' message h) s
Step-IsSound env w a b (dispatches msg rest node node' pairs t h) s =
    let l = dispatch_entrance-SameLog (record node { msg_entrance = rest }) node' msg h in
    SameLog-IsSound node node' pairs
      (record { marked = l.marked; log = l.log; counted = l.counted }) s
Step-IsSound env w a b (resolves msg rest node node' pairs t h) s =
    let l = resolve_msg-SameLog (record node { msg_delivery = rest }) node' msg h in
    SameLog-IsSound node node' pairs
      (record { marked = l.marked; log = l.log; counted = l.counted }) s
Step-IsSound env w a b (handles seq addr now st st' msg rest node node' pairs end e t v h) s =
    let l =
      handle-SameLog env node node' (record st { msg_state = rest }) st' msg addr now end v h in
    SameLog-IsSound node (put_state node' seq st') pairs
      (record { marked = l.marked; log = l.log; counted = l.counted }) s
Step-IsSound env w a b (ends_prepare seq st st' node node' pairs e h) s =
    let l = expire_prepare-SameLog env node node' st st' seq h in
    SameLog-IsSound node (put_state node' seq st') pairs
      (record { marked = l.marked; log = l.log; counted = l.counted }) s
Step-IsSound env w a b (ends_vote seq st node node' pairs e h) s =
    SameLog-IsSound node node' pairs (expire_vote-SameLog env node node' st h) s
Step-IsSound env w a b (ends_collate seq st node node' pairs e h) s =
    SameLog-IsSound node node' pairs (expire_collate-SameLog env node node' st h) s
Step-IsSound env w a b (executes received rest node node' pairs pairs' t h) s =
    executes-IsSound (record node { msg_execution = rest }) node' pairs pairs' received
      (record { log = s.ordered.log; short = s.ordered.short; counted = s.ordered.counted }) s.keyed
      s.marked h
Step-IsSound env w a b (sends l node node' pairs frame h) s =
    SameLog-IsSound node node' pairs (send_msg-SameLog l node node' frame h) s
Step-IsSound env w a b (prints left left' node node' pairs events h) s =
    SameLog-IsSound node node' pairs (log_error_msg-SameLog node node' left left' events h) s
Step-IsSound env w a b (begins now node node' pairs h) s =
    let same = send_genesis_msg_if_primary-frame env node node' now h in
    SameLog-IsSound node node' pairs
      (record {
        marked = λ i l. rw same l;
        log = ap (λ n. n.committed_msgs) same;
        counted = ap (λ n. n.committed) same;
      })
      s
Step-IsSound env w a b (marks_late seq st node node' pairs e one h) s =
    SameLog-IsSound node node' pairs (late_mark-SameLog node node' seq one h) s
Step-IsSound env w a b (signals seq st st' node pairs e t) s =
    SameLog-IsSound node (put_state node seq st') pairs
      (record { marked = λ i h. h; log = refl; counted = refl }) s

Run-IsSound :
    (env : Env) (w : Wire) (a b : System)
    → Run env w a b
    → IsSound a
    → IsSound b × IsExtended a.node b.node
Run-IsSound env w a b (stay sys) s = (s, ([], sym (append-nil sys.node.committed_msgs)))
Run-IsSound env w a b (go x y z step rest) s =
    let (s1, (more, e1)) = Step-IsSound env w x y step s in
    let (s2, (most, e2)) = Run-IsSound env w y z rest s1 in
    (s2, (more ++ most, e2 ∙ ap (λ l. l ++ most) e1 ∙ append_assoc x.node.committed_msgs more most))

new_node-IsSound :
    (info : NodeInfo) (table : List NodeInfo) (seeds : List (List NodeInfo)) (view_id : ℕ)
    (node : Node)
    → new_node info table seeds view_id ≡ ok node
    → IsSound (record { node = node; pairs = [] })
unfolding new_node update_view_id
new_node-IsSound info table seeds view_id node h =
    let log : node.committed_msgs ≡ [] = ground arith in
    let counted : (i : ℕ) → node.committed i ≡ 0 = λ i. ground arith in
    record {
      ordered = record {
        log = rw log tt;
        short = rw log (omega arith);
        counted = λ i. rw log (ground (arith, counted i));
      };
      keyed = tt;
      marked = λ i. ground arith;
    }

-- Whatever the order in which a new node receives, dispatches, resolves and handles messages, its timers
-- end and its executor works, without a view change: its log is always in order, numbered from 1 on
-- without a gap, with each sequence number executed once; and from any moment to any later one, the log
-- only has entries appended.
pub Run-append_only :
    (env : Env) (w : Wire) (info : NodeInfo) (table : List NodeInfo) (seeds : List (List NodeInfo))
    (view_id : ℕ) (node : Node) (a b : System)
    → new_node info table seeds view_id ≡ ok node
    → Run env w (record { node = node; pairs = [] }) a
    → Run env w a b
    → IsOrdered a.node × IsOrdered b.node × IsExtended a.node b.node
Run-append_only env w info table seeds view_id node a b made first second =
    let s = new_node-IsSound info table seeds view_id node made in
    let (sa, ea) = Run-IsSound env w (record { node = node; pairs = [] }) a first s in
    let (sb, eb) = Run-IsSound env w a b second sa in (sa.ordered, sb.ordered, eb)
