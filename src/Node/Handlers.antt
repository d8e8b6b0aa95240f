-- ===== src/Node/Handlers.antt =====
-- GetPrepare, GetVote and GetCollate (pbft/network/node.go). A handler runs in the thread of a
-- sequence number; it takes the node and the state of the thread and returns both.
use pa_bft.Base.{ℕ, ◌==◌, none, some, length, add64, if◌then◌else◌}
use pa_bft.Base.Outcome.{Outcome, ok, panic, deref, ◌>>=◌}
use pa_bft.Message.{
  PrepareMsg, ReqPrepareMsgs, VoteMsg, VoteMsgs, VoteRef, CollateMsg, MsgType, committed,
  uncommitted,
}
use pa_bft.State.{State, prepare}
use pa_bft.State.Voting.{vote}
use pa_bft.State.Collating.{collate, fill_hole_vote_msgs}
use pa_bft.State.Access.{set_receive_prepare_time}
use pa_bft.Node.{Node, votes, collates, in_array, write}
use pa_bft.Node.Threads.{
  Env, broadcast, report, execute, start_timer, stop_timer, start_thread_if_not_exists,
  broad_cast_next_prepare_msg_if_primary,
}

-- `if node.Prepared[seq] == 0 { atomic.AddInt64(&node.Prepared[seq], 1) }`, where nobody else adds between
-- the test and the addition; `late_mark` is an addition that comes after another one.
unfoldable pub mark_prepared : Node → ℕ → Outcome Node
mark_prepared node seq =
    if in_array seq
    then ok (
        if node.prepared seq == 0
        then record node { prepared = write node.prepared seq (add64 (node.prepared seq) 1) }
        else node)
    else panic

-- `atomic.AddInt64(&node.Prepared[seq], 1)` by a goroutine whose test is some time ago.
unfoldable pub late_mark : Node → ℕ → Outcome Node
late_mark node seq =
    if in_array seq
    then ok (record node { prepared = write node.prepared seq (add64 (node.prepared seq) 1) })
    else panic

-- `node.Committed[seq]` and `node.Prepared[seq]`
abbrev pub committed_at : Node → ℕ → Outcome ℕ
committed_at node seq = if in_array seq then ok (node.committed seq) else panic

abbrev pub prepared_at : Node → ℕ → Outcome ℕ
prepared_at node seq = if in_array seq then ok (node.prepared seq) else panic

-- The proposal that is sent to the executor: the one in the log, or else that of the first vote which
-- the `range` yields, if there is one. A nil vote is dereferenced.
unfoldable pub execute_proposal : Env → Node → State → VoteMsgs → Outcome Node
unfolding execute
execute_proposal env node s received = elim s.msg_logs.prepare_msg [
  | some p ↦ execute node (some p)
  | none ↦ elim (env.first received) [
    | none ↦ ok node
    | some v ↦ (do r ← deref v; execute node r.msg.prepare_msg)
  ]
]

-- `GetPrepare` from where the vote is made.
unfoldable pub follow_vote : Env → Node → State → PrepareMsg → VoteMsg → ℕ → Outcome (Node × State)
unfolding mark_prepared broadcast stop_timer start_timer execute
follow_vote env node s pm vote_msg now = do
  next ← broad_cast_next_prepare_msg_if_primary env node (add64 pm.sequence_id 1) now
  marked ← mark_prepared next pm.sequence_id
  (threaded, thread) ← start_thread_if_not_exists marked (add64 pm.sequence_id 1)
  voted ← broadcast threaded (votes (record vote_msg { node_id = node.my_info.node_id })) "/vote"
  done ← committed_at voted pm.sequence_id
  stopped ← stop_timer s "Prepare"
  if done == 1
      then (do executed ← execute voted (some pm); ok (executed, stopped))
      else (do started ← start_timer stopped "Vote"; ok (voted, started))

unfoldable pub get_prepare : Env → Node → State → ReqPrepareMsgs → ℕ → Outcome (Node × State)
unfolding report follow_vote
get_prepare env node s msgs now = do
  let pm = msgs.prepare_msg
  let (s1, vote_msg, err) = prepare env.digest (set_receive_prepare_time s now) pm msgs.request_msg
  reported ← report node err
  if vote_msg.sequence_id == 0
      then ok (reported, s1)
      else follow_vote env reported s1 pm vote_msg now

-- The switch of `GetVote` on the answer of `Vote`.
unfoldable pub on_vote_answer : MsgType → Env → Node → State → CollateMsg → Outcome (Node × State)
unfolding execute_proposal broadcast stop_timer start_timer
on_vote_answer committed env node s answer = do
  executed ← execute_proposal env node s answer.received_vote_msg
  collated ←
      broadcast executed (collates (record answer { node_id = node.my_info.node_id })) "/collate"
  stopped ← stop_timer s "Vote"
  started ← start_timer stopped "Collate"
  ok (collated, started)
on_vote_answer uncommitted env node s answer = do
  stopped ← stop_timer s "Vote"
  started ← start_timer stopped "Collate"
  collated ← broadcast node (collates (record answer { node_id = node.my_info.node_id })) "/collate"
  ok (collated, started)
on_vote_answer _ env node s answer = ok (node, s)

unfoldable pub get_vote : Env → Node → State → VoteRef → Outcome (Node × State)
unfolding report on_vote_answer
get_vote env node s r = do
  let (s1, answer, err) = vote s (some r) (length node.node_table)
  reported ← report node err
  if answer.sequence_id == 0
      then ok (reported, s1)
      else on_vote_answer answer.msg_type env reported s1 answer

-- A sequence that is not committed is executed.
unfoldable pub execute_if_uncommitted : Env → Node → State → CollateMsg → Outcome (Node × State)
unfolding execute_proposal stop_timer
execute_if_uncommitted env node s answer = do
  done ← committed_at node answer.sequence_id
  if done == 0
      then (do
        executed ← execute_proposal env node s answer.received_vote_msg
        stopped ← stop_timer s "Collate"
        ok (executed, stopped))
      else ok (node, s)

-- That is done only where the sequence is prepared.
unfoldable pub execute_if_prepared : Env → Node → State → CollateMsg → Outcome (Node × State)
unfolding execute_if_uncommitted
execute_if_prepared env node s answer = do
  ready ← prepared_at node answer.sequence_id
  if ready == 1 then execute_if_uncommitted env node s answer else ok (node, s)

-- The inner switch, for a message that says UNCOMMITTED.
unfoldable pub on_collate_answer :
    MsgType → Env → Node → State → CollateMsg → Outcome (Node × State)
unfolding execute_if_prepared
on_collate_answer committed env node s answer = execute_if_prepared env node s answer
on_collate_answer _ env node s answer = ok (node, s)

unfoldable pub get_collate_as : MsgType → Env → Node → State → CollateMsg → Outcome (Node × State)
unfolding report execute_if_prepared on_collate_answer
get_collate_as uncommitted env node s c = do
  let (s1, answer, err) = collate (fill_hole_vote_msgs s c) c
  reported ← report node err
  if answer.sequence_id == 0
      then ok (reported, s1)
      else on_collate_answer answer.msg_type env reported s1 answer
get_collate_as committed env node s c = do
  let (s1, answer, err) = collate (fill_hole_vote_msgs s c) c
  reported ← report node err
  execute_if_prepared env reported s1 answer
get_collate_as _ env node s c = ok (node, s)

unfoldable pub get_collate : Env → Node → State → CollateMsg → Outcome (Node × State)
unfolding get_collate_as
get_collate env node s c = get_collate_as c.msg_type env node s c
