-- ===== src/Node/Expiry.antt =====
-- startTransitionWithDeadline (pbft/network/node.go): what the thread of a sequence number does with a
-- message, and what is done when the timer of a phase ends.
use text.Mathlib.Text.{◌==◌ as text_beq}
use pa_bft.Base.{ℕ, ◌==◌, String, none, length, if◌then◌else◌}
use pa_bft.Base.Outcome.{Outcome, ok, ◌>>=◌}
use pa_bft.Message.{
  PrepareMsg, CollateMsg, MsgType, committed, uncommitted, Message, req_prepare, voted, collated,
  view_change, new_view,
}
use pa_bft.State.{State, prepare}
use pa_bft.State.Voting.{vote_aq}
use pa_bft.State.Collating.{collate_aq}
use pa_bft.Node.{Node, votes, collates}
use pa_bft.Node.Threads.{Env, broadcast, start_timer}
use pa_bft.Node.Handlers.{
  mark_prepared, committed_at, execute_proposal, get_prepare, get_vote, get_collate,
}
use pa_bft.Node.ViewChanging.{Finish, returned, start_view_change, get_view_change, get_new_view}

-- `case msgState := <-MsgCh`. `addr` is the address of a new view-change state, `now` is the clock.
unfoldable pub handle : Env → Node → State → Message → ℕ → ℕ → Outcome (Node × State × Finish)
unfolding get_prepare get_vote get_collate get_view_change get_new_view
handle env node s (req_prepare msgs) addr now = do
  (node', s') ← get_prepare env node s msgs now
  ok (node', s', returned)
handle env node s (voted r) addr now = do
  (node', s') ← get_vote env node s r
  ok (node', s', returned)
handle env node s (collated c) addr now = do
  (node', s') ← get_collate env node s c
  ok (node', s', returned)
handle env node s (view_change m) addr now = do
  node' ← get_view_change node m addr now
  ok (node', s, returned)
handle env node s (new_view m) addr now = do
  (node', end) ← get_new_view env node m addr now
  ok (node', s, end)

-- The proposal that a node votes for when none has come.
abbrev pub null_proposal : ℕ → PrepareMsg
null_proposal seq_id = record {
  view_id = 0;
  sequence_id = seq_id;
  digest = "";
  epoch_id = 0;
  node_id = "";
  seed = 0;
}

unfoldable pub expire_prepare : Env → Node → State → ℕ → Outcome (Node × State)
unfolding start_timer mark_prepared broadcast
expire_prepare env node s seq_id = do
  started ← start_timer s "Vote"
  let (s1, vote_msg, err) = prepare env.digest started (null_proposal seq_id) none
  marked ← mark_prepared node seq_id
  done ← broadcast marked (votes (record vote_msg { node_id = node.my_info.node_id })) "/vote"
  ok (done, s1)

-- A message that says COMMITTED: the proposal is executed and the message sent, unless the sequence
-- number is committed already.
unfoldable pub commit_aq : Env → Node → State → CollateMsg → Outcome Node
unfolding execute_proposal broadcast
commit_aq env node s c = do
  done ← committed_at node c.sequence_id
  if done == 0
      then (do
        executed ← execute_proposal env node s c.received_vote_msg
        broadcast executed (collates c) "/collate")
      else ok node

unfoldable pub on_vote_aq : MsgType → Env → Node → State → CollateMsg → Outcome Node
unfolding commit_aq broadcast
on_vote_aq uncommitted env node s c = broadcast node (collates c) "/collate"
on_vote_aq committed env node s c = commit_aq env node s c
on_vote_aq _ env node s c = ok node

unfoldable pub expire_vote : Env → Node → State → Outcome Node
unfolding on_vote_aq
expire_vote env node s =
    let (c, err) = vote_aq s (length node.node_table) in
    on_vote_aq c.msg_type env node s (record c { node_id = node.my_info.node_id })

unfoldable pub on_collate_aq : MsgType → Env → Node → State → CollateMsg → Outcome Node
unfolding commit_aq
on_collate_aq committed env node s c = commit_aq env node s c
on_collate_aq _ env node s c = ok node

unfoldable pub expire_collate : Env → Node → State → Outcome Node
unfolding on_collate_aq
expire_collate env node s =
    let (c, err) = collate_aq s (length node.node_table) in
    on_collate_aq c.msg_type env node s (record c { node_id = node.my_info.node_id })

-- `case <-timerArr[phase].C`. `seq_id` is the sequence number that the thread was started for.
unfoldable pub expire : Env → Node → State → ℕ → String → Outcome (Node × State)
unfolding expire_prepare expire_vote expire_collate start_view_change
expire env node s seq_id name =
    if text_beq name "Prepare"
    then expire_prepare env node s seq_id
    else if text_beq name "Vote"
    then (do node' ← expire_vote env node s; ok (node', s))
    else if text_beq name "Collate"
    then (do node' ← expire_collate env node s; ok (node', s))
    else if text_beq name "ViewChange"
    then (do node' ← start_view_change node s.sequence_id; ok (node', s))
    else ok (node, s)
