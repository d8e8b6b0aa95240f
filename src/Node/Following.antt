-- ===== src/Node/Following.antt =====
-- What GetPrepare (pbft/network/node.go) leads to.
use pa_bft.Base.{
  ℕ, ◌≤◌, ◌≡◌, ◌==◌, some, [], ◌∷◌, ◌++◌, arith, add64, int64_key, string_key, ◌≢◌, if◌then◌else◌,
  true,
}
use pa_bft.Base.Map.{lookup}
use pa_bft.Base.Outcome.{ok, bind-returns}
use pa_bft.Message.{VoteMsg, ReqPrepareMsgs, PrepareMsg}
use pa_bft.State.{State}
use pa_bft.State.{prepare}
use pa_bft.State.Access.{set_receive_prepare_time}
use pa_bft.Node.{Node}
use pa_bft.Node.Handlers.{get_prepare, follow_vote, mark_prepared}
use pa_bft.Node.Starting.{
  is_some, start_thread_if_not_exists_lem, broad_cast_next_prepare_msg_if_primary-keeps,
}
use pa_bft.Node.Threads.{
  broad_cast_next_prepare_msg_if_primary, start_thread_if_not_exists, Env, broadcast, report,
  execute, start_timer, stop_timer,
}

follow_vote_lem :
    (env : Env) (node node' : Node) (s s' : State) (pm : PrepareMsg) (v : VoteMsg) (now : ℕ)
    → node.prepared pm.sequence_id ≤ 1
    → follow_vote env node s pm v now ≡ ok (node', s')
    → (node'.prepared pm.sequence_id ≡ 1)
      × (is_some (lookup (add64 pm.sequence_id 1) node'.states) ≡ true)
      × (node'.msg_execution.queue ≡ (
          if node.committed pm.sequence_id == 1
          then node.msg_execution.queue ++ some pm ∷ []
          else node.msg_execution.queue))
unfolding follow_vote broadcast execute stop_timer start_timer mark_prepared
follow_vote_lem env node node' s s' pm v now once h =
    let next = add64 pm.sequence_id 1 in
    let (sent, h1, e1) =
      bind-returns (broad_cast_next_prepare_msg_if_primary env node next now) _ h in
    let (marked, h2, e2) = bind-returns (mark_prepared sent pm.sequence_id) _ h1 in
    let ((threaded, thread), h3, e3) = bind-returns (start_thread_if_not_exists marked next) _ h2 in
    let kept = broad_cast_next_prepare_msg_if_primary-keeps env node sent next now e1 in
    let begun = start_thread_if_not_exists_lem marked threaded next thread e3 in
    ground (arith, kept, begun.0, begun.5, begun.6, begun.7)

-- `GetPrepare` that makes a vote and returns: the sequence number is marked as prepared, the thread of
-- the next one exists, and the proposal goes to the executor where the sequence is committed already,
-- and only there.
pub get_prepare-follows :
    (env : Env) (node node' : Node) (s s' : State) (msgs : ReqPrepareMsgs) (now : ℕ)
    → let pm = msgs.prepare_msg in
      let s1 = set_receive_prepare_time s now in
      (prepare env.digest s1 pm msgs.request_msg).1.sequence_id ≢ 0
      → node.prepared msgs.prepare_msg.sequence_id ≤ 1
      → get_prepare env node s msgs now ≡ ok (node', s')
      → (node'.prepared msgs.prepare_msg.sequence_id ≡ 1)
        × (is_some (lookup (add64 msgs.prepare_msg.sequence_id 1) node'.states) ≡ true)
        × (node'.msg_execution.queue ≡ (
            if node.committed msgs.prepare_msg.sequence_id == 1
            then node.msg_execution.queue ++ some msgs.prepare_msg ∷ []
            else node.msg_execution.queue))
unfolding get_prepare report
get_prepare-follows env node node' s s' msgs now made once h =
    let pm = msgs.prepare_msg in
    let (s1, v, err) = prepare env.digest (set_receive_prepare_time s now) pm msgs.request_msg in
    let (reported, rest, e) = bind-returns (report node err) _ h in
    ground (arith, follow_vote_lem env reported node' s1 s' pm v now)
