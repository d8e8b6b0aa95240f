-- ===== src/System/Frames.antt =====
-- The log and the counters of the executor are not touched by the other goroutines
-- (pbft/network/node.go).
use pa_bft.Base.{int64_key, ℕ, arith, add64, ◌≤◌, ◌≡◌, String, Option, List, false}
use pa_bft.Base.Outcome.{ok, bind-returns}
use pa_bft.Message.{
  Message, PrepareMsg, VoteMsg, ReqPrepareMsgs, VoteRef, CollateMsg, req_prepare, voted, collated,
  view_change, new_view,
}
use pa_bft.State.{State, prepare}
use pa_bft.State.Access.{set_receive_prepare_time}
use pa_bft.Node.{Node, NodeInfo}
use pa_bft.Node.Threads.{
  Env, broadcast, report, execute, start_timer, stop_timer, start_thread_if_not_exists,
  broad_cast_next_prepare_msg_if_primary,
}
use pa_bft.Node.Starting.{
  start_thread_if_not_exists-frame, broad_cast_next_prepare_msg_if_primary-keeps,
}
use pa_bft.Node.Handlers.{
  late_mark, mark_prepared, execute_proposal, follow_vote, get_prepare, get_vote, get_collate,
}
use pa_bft.Node.Expiry.{handle, expire_prepare, expire_vote, expire_collate, commit_aq}
use pa_bft.Node.Dispatch.{
  deliver, dispatch_entrance, hand_to, hand_to_new, resolve_counted, resolve_msg,
}
use pa_bft.Node.ViewChanging.{Finish}
use pa_bft.Server.{Wire, sort_msg, receive, enter, enter_view, deattach_signature_msg}
use pa_bft.Server.Sending.{Link, LogEvent, send_msg, log_error_msg}
use pa_bft.System.{changes_view}

-- The log and the counters of executions are the same, and the counters of proposals stay
-- at most 2.
pub record SameLog (node node' : Node) : Type 0 where
  pub marked : (i : ℕ) → node.prepared i ≤ 2 → node'.prepared i ≤ 2
  pub log : node'.committed_msgs ≡ node.committed_msgs
  pub counted : node'.committed ≡ node.committed

pub receive-SameLog :
    (w : Wire) (sender : NodeInfo) (node node' : Node) (message : String)
    → receive w sender node message ≡ ok node'
    → SameLog node node'
unfolding receive sort_msg enter enter_view deattach_signature_msg
receive-SameLog w sender node node' message h = ground arith

pub dispatch_entrance-SameLog :
    (node node' : Node) (msg : Message) → dispatch_entrance node msg ≡ ok node' → SameLog node node'
unfolding dispatch_entrance deliver
dispatch_entrance-SameLog node node' msg h = ground arith

hand_to_new-SameLog :
    (node node' : Node) (seq : ℕ) (msg : Message)
    → hand_to_new node seq msg ≡ ok node'
    → SameLog node node'
unfolding hand_to_new hand_to
hand_to_new-SameLog node node' seq msg h =
    let ((threaded, s), rest, e) = bind-returns (start_thread_if_not_exists node seq) _ h in
    ground (arith, start_thread_if_not_exists-frame node threaded seq s e)

resolve_counted-SameLog :
    (node node' : Node) (seq : ℕ) (msg : Message)
    → resolve_counted node seq msg ≡ ok node'
    → SameLog node node'
unfolding resolve_counted hand_to
resolve_counted-SameLog node node' seq msg h =
    ground (arith, hand_to_new-SameLog node node' seq msg)

pub resolve_msg-SameLog :
    (node node' : Node) (msg : Message) → resolve_msg node msg ≡ ok node' → SameLog node node'
unfolding resolve_msg
resolve_msg-SameLog node node' (req_prepare msgs) h =
    hand_to_new-SameLog node node' msgs.prepare_msg.sequence_id (req_prepare msgs) h
resolve_msg-SameLog node node' (voted r) h =
    resolve_counted-SameLog node node' r.msg.sequence_id (voted r) h
resolve_msg-SameLog node node' (collated c) h =
    resolve_counted-SameLog node node' c.sequence_id (collated c) h
resolve_msg-SameLog node node' (view_change m) h =
    hand_to_new-SameLog node node' m.sequence_id (view_change m) h
resolve_msg-SameLog node node' (new_view m) h =
    hand_to_new-SameLog node node' m.sequence_id (new_view m) h

follow_vote-SameLog :
    (env : Env) (node node' : Node) (s s' : State) (pm : PrepareMsg) (v : VoteMsg) (now : ℕ)
    → follow_vote env node s pm v now ≡ ok (node', s')
    → SameLog node node'
unfolding follow_vote broadcast execute stop_timer start_timer mark_prepared
follow_vote-SameLog env node node' s s' pm v now h =
    let next = add64 pm.sequence_id 1 in
    let (sent, h1, e1) =
      bind-returns (broad_cast_next_prepare_msg_if_primary env node next now) _ h in
    let (marked, h2, e2) = bind-returns (mark_prepared sent pm.sequence_id) _ h1 in
    let ((threaded, thread), h3, e3) = bind-returns (start_thread_if_not_exists marked next) _ h2 in
    ground (
      arith,
      broad_cast_next_prepare_msg_if_primary-keeps env node sent next now e1,
      start_thread_if_not_exists-frame marked threaded next thread e3,
    )

get_prepare-SameLog :
    (env : Env) (node node' : Node) (s s' : State) (msgs : ReqPrepareMsgs) (now : ℕ)
    → get_prepare env node s msgs now ≡ ok (node', s')
    → SameLog node node'
unfolding get_prepare report
get_prepare-SameLog env node node' s s' msgs now h =
    let pm = msgs.prepare_msg in
    let (s1, v, err) = prepare env.digest (set_receive_prepare_time s now) pm msgs.request_msg in
    let (reported, rest, e) = bind-returns (report node err) _ h in
    ground (arith, follow_vote-SameLog env reported node' s1 s' pm v now)

get_vote-SameLog :
    (env : Env) (node node' : Node) (s s' : State) (r : VoteRef)
    → get_vote env node s r ≡ ok (node', s')
    → SameLog node node'
unfolding get_vote report execute_proposal execute broadcast stop_timer start_timer
get_vote-SameLog env node node' s s' r h = ground arith

get_collate-SameLog :
    (env : Env) (node node' : Node) (s s' : State) (c : CollateMsg)
    → get_collate env node s c ≡ ok (node', s')
    → SameLog node node'
unfolding get_collate report execute_proposal execute stop_timer
get_collate-SameLog env node node' s s' c h = ground arith

pub handle-SameLog :
    (env : Env) (node node' : Node) (s s' : State) (msg : Message) (addr now : ℕ) (end : Finish)
    → changes_view msg ≡ false
    → handle env node s msg addr now ≡ ok (node', s', end)
    → SameLog node node'
unfolding handle
handle-SameLog env node node' s s' (req_prepare msgs) addr now end v h =
    let ((n, t), rest, e) = bind-returns (get_prepare env node s msgs now) _ h in
    ground (arith, get_prepare-SameLog env node n s t msgs now e)
handle-SameLog env node node' s s' (voted r) addr now end v h =
    let ((n, t), rest, e) = bind-returns (get_vote env node s r) _ h in
    ground (arith, get_vote-SameLog env node n s t r e)
handle-SameLog env node node' s s' (collated c) addr now end v h =
    let ((n, t), rest, e) = bind-returns (get_collate env node s c) _ h in
    ground (arith, get_collate-SameLog env node n s t c e)
handle-SameLog env node node' s s' (view_change m) addr now end v h = cc
handle-SameLog env node node' s s' (new_view m) addr now end v h = cc

pub expire_prepare-SameLog :
    (env : Env) (node node' : Node) (s s' : State) (seq : ℕ)
    → expire_prepare env node s seq ≡ ok (node', s')
    → SameLog node node'
unfolding expire_prepare start_timer mark_prepared broadcast
expire_prepare-SameLog env node node' s s' seq h = ground arith

pub expire_vote-SameLog :
    (env : Env) (node node' : Node) (s : State)
    → expire_vote env node s ≡ ok node'
    → SameLog node node'
unfolding expire_vote commit_aq execute_proposal execute broadcast
expire_vote-SameLog env node node' s h = ground arith

pub expire_collate-SameLog :
    (env : Env) (node node' : Node) (s : State)
    → expire_collate env node s ≡ ok node'
    → SameLog node node'
unfolding expire_collate commit_aq execute_proposal execute broadcast
expire_collate-SameLog env node node' s h = ground arith

pub late_mark-SameLog :
    (node node' : Node) (seq : ℕ)
    → node.prepared seq ≡ 1
    → late_mark node seq ≡ ok node'
    → SameLog node node'
unfolding late_mark
late_mark-SameLog node node' seq one h = ground arith

pub send_msg-SameLog :
    (l : Link) (node node' : Node) (frame : Option (String × String))
    → send_msg l node ≡ ok (node', frame)
    → SameLog node node'
unfolding send_msg report
send_msg-SameLog l node node' frame h = ground arith

pub log_error_msg-SameLog :
    (node node' : Node) (left left' : ℕ) (events : List LogEvent)
    → log_error_msg node left ≡ ok (node', left', events)
    → SameLog node node'
unfolding log_error_msg
log_error_msg-SameLog node node' left left' events h = ground arith
