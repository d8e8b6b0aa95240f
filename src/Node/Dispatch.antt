-- ===== src/Node/Dispatch.antt =====
-- dispatchMsg and resolveMsg (pbft/network/node.go): from the two entrances of the node to the threads
-- of the sequence numbers. One round of each loop is one step.
use pa_bft.Base.{int64_key, ℕ, ◌==◌, none, some, if◌then◌else◌}
use pa_bft.Base.Map.{lookup, insert}
use pa_bft.Base.Chan.{send}
use pa_bft.Base.Outcome.{Outcome, ok, sent, ◌>>=◌}
use pa_bft.Message.{Message, req_prepare, voted, collated, view_change, new_view}
use pa_bft.State.{State}
use pa_bft.Node.{Node}
use pa_bft.Node.Threads.{start_thread_if_not_exists}
use pa_bft.Node.Handlers.{committed_at}

unfoldable pub deliver : Node → Message → Outcome Node
deliver node msg = do
  delivery ← sent (send node.msg_delivery msg)
  ok (record node { msg_delivery = delivery })

-- A message from `MsgEntrance` is dropped during a view change; one from `ViewMsgEntrance` is not.
unfoldable pub dispatch_entrance : Node → Message → Outcome Node
unfolding deliver
dispatch_entrance node msg = if node.is_view_changing then ok node else deliver node msg

unfoldable pub dispatch_view_entrance : Node → Message → Outcome Node
unfolding deliver
dispatch_view_entrance node msg = deliver node msg

-- `state.GetMsgSendChannel() <- msg`, for the state of a sequence number.
unfoldable pub hand_to : Node → ℕ → State → Message → Outcome Node
hand_to node seq s msg = do
  queued ← sent (send s.msg_state msg)
  ok (record node { states = insert seq (record s { msg_state = queued }) node.states })

-- The thread is started if need be, and takes the message.
unfoldable pub hand_to_new : Node → ℕ → Message → Outcome Node
unfolding hand_to start_thread_if_not_exists
hand_to_new node seq msg = do
  (threaded, s) ← start_thread_if_not_exists node seq
  hand_to threaded seq s msg

-- Votes and collate messages: dropped where the sequence is committed; for sequence number 1 they do
-- not start the thread.
unfoldable pub resolve_counted : Node → ℕ → Message → Outcome Node
unfolding hand_to hand_to_new
resolve_counted node seq msg = do
  done ← committed_at node seq
  if done == 1 then ok node else elim (lookup seq node.states) [
    | some s ↦ hand_to node seq s msg
    | none ↦ if seq == 1 then ok node else hand_to_new node seq msg
  ]

unfoldable pub resolve_msg : Node → Message → Outcome Node
unfolding resolve_counted hand_to_new
resolve_msg node (req_prepare msgs) =
    hand_to_new node msgs.prepare_msg.sequence_id (req_prepare msgs)
resolve_msg node (voted r) = resolve_counted node r.msg.sequence_id (voted r)
resolve_msg node (collated c) = resolve_counted node c.sequence_id (collated c)
resolve_msg node (view_change m) = hand_to_new node m.sequence_id (view_change m)
resolve_msg node (new_view m) = hand_to_new node m.sequence_id (new_view m)
