-- ===== src/Node/Handling.antt =====
-- What GetVote and GetCollate (pbft/network/node.go) hand to the executor.
use pa_bft.Base.{
  Option, none, refl, ℕ, ◌<◌, ◌≡◌, some, [], ◌∷◌, ◌++◌, length, arith, int64_key, string_key,
  if◌then◌else◌, true,
}
use pa_bft.Base.Chan.{Chan}
use pa_bft.Base.Outcome.{ok, returns, returns-ok}
use pa_bft.Message.{PrepareMsg, VoteRef, CollateMsg, MsgType, is_committed}
use pa_bft.State.{State, Error, set_bizantine}
use pa_bft.State.Voting.{vote, record_vote, vote_result}
use pa_bft.State.{verify_msg}
use pa_bft.Node.{Node}
use pa_bft.Node.Handlers.{get_vote, execute_proposal, on_vote_answer}
use pa_bft.Node.Threads.{Env, broadcast, report, execute, start_timer, stop_timer}

-- One more can be sent on the channel.
abbrev pub HasRoom : {A : Type 0} → Chan A → Type 0
HasRoom ch = length ch.queue < ch.cap

-- What `Vote` leaves as it is, and the sequence number of its answers.
vote-keeps :
    (s : State) (r : VoteRef) (n : ℕ)
    → ((vote s (some r) n).0.msg_logs.prepare_msg ≡ s.msg_logs.prepare_msg)
      × ((vote s (some r) n).0.timer_start_ch ≡ s.timer_start_ch)
      × ((vote s (some r) n).0.timer_stop_ch ≡ s.timer_stop_ch)
      × (is_committed (vote s (some r) n).1.msg_type ≡ true
          → (vote s (some r) n).1.sequence_id ≡ s.sequence_id)
unfolding vote record_vote set_bizantine vote_result verify_msg
vote-keeps s r n = ground arith

-- The channels that a handler sends on can take one more message.
pub record HasSpace (node : Node) (s : State) : Type 0 where
  pub execution : HasRoom node.msg_execution
  pub outbound : HasRoom node.msg_outbound
  pub errors : HasRoom node.msg_error
  pub start : HasRoom s.timer_start_ch
  pub stop : HasRoom s.timer_stop_ch

report-returns :
    (node : Node) (e : Option Error)
    → HasRoom node.msg_error
    → (node' : Node) × (report node e ≡ ok node')
      × (node'.msg_execution ≡ node.msg_execution)
      × (node'.msg_outbound ≡ node.msg_outbound)
unfolding report
report-returns node none room = (node, refl, refl, refl)
report-returns node (some e) room = (
  record node {
    msg_error = record node.msg_error { queue = node.msg_error.queue ++ (e ∷ []) ∷ [] };
  },
  ground (arith, room),
  refl,
  refl,
)

on_vote_answer-returns :
    (t : MsgType) (env : Env) (node : Node) (s : State) (answer : CollateMsg) (p : PrepareMsg)
    → s.msg_logs.prepare_msg ≡ some p
    → HasRoom node.msg_execution
    → HasRoom node.msg_outbound
    → HasRoom s.timer_start_ch
    → HasRoom s.timer_stop_ch
    → returns (on_vote_answer t env node s answer) ≡ true
unfolding on_vote_answer execute_proposal broadcast execute stop_timer start_timer
on_vote_answer-returns t env node s answer p e re ro rs rt = ground arith

get_vote-returns :
    (env : Env) (node : Node) (s : State) (r : VoteRef) (p : PrepareMsg)
    → s.msg_logs.prepare_msg ≡ some p
    → HasSpace node s
    → returns (get_vote env node s r) ≡ true
unfolding get_vote
get_vote-returns env node s r p e room =
    let v = vote s (some r) (length node.node_table) in
    let (reported, er, same, same') = report-returns node v.2 room.errors in
    let keeps = vote-keeps s r (length node.node_table) in
    ground (
      arith,
      on_vote_answer-returns v.1.msg_type env reported v.0 v.1 p,
      room.execution,
      room.outbound,
      room.start,
      room.stop,
    )

get_vote-queue :
    (env : Env) (node node' : Node) (s s' : State) (r : VoteRef) (p : PrepareMsg)
    → s.msg_logs.prepare_msg ≡ some p
    → 0 < s.sequence_id
    → get_vote env node s r ≡ ok (node', s')
    → node'.msg_execution.queue ≡ (
        if is_committed (vote s (some r) (length node.node_table)).1.msg_type
        then node.msg_execution.queue ++ some p ∷ []
        else node.msg_execution.queue)
unfolding get_vote report execute_proposal broadcast execute stop_timer start_timer
get_vote-queue env node node' s s' r p e pos h =
    ground (arith, vote-keeps s r (length node.node_table))

-- With a proposal in the log and room on the channels, `GetVote` returns at every vote. It hands that
-- proposal to the executor exactly where `Vote` answers COMMITTED, and hands it nothing otherwise.
pub get_vote-executes :
    (env : Env) (node : Node) (s : State) (r : VoteRef) (p : PrepareMsg)
    → s.msg_logs.prepare_msg ≡ some p
    → 0 < s.sequence_id
    → HasSpace node s
    → (node' : Node) × (s' : State) × (get_vote env node s r ≡ ok (node', s'))
      × (node'.msg_execution.queue ≡ (
          if is_committed (vote s (some r) (length node.node_table)).1.msg_type
          then node.msg_execution.queue ++ some p ∷ []
          else node.msg_execution.queue))
get_vote-executes env node s r p e pos room =
    let ((node', s'), h) =
      returns-ok (get_vote env node s r) (get_vote-returns env node s r p e room) in
    (node', s', h, get_vote-queue env node node' s s' r p e pos h)
