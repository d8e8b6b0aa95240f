-- ===== src/Node/Routing.antt =====
-- Where resolveMsg (pbft/network/node.go) puts a message.
use pa_bft.Base.{
  int64_key, ℕ, ◌≡◌, ◌==◌, ◌&&◌, ◌||◌, not, Bool, true, false, Option, none, some, List, [], ◌∷◌,
  ◌++◌, arith, if◌then◌else◌, Option-cases, inl, inr,
}
use pa_bft.Base.Map.{lookup, lookup-insert}
use pa_bft.Base.Outcome.{ok, bind-returns}
use pa_bft.Message.{Message, req_prepare, voted, collated, view_change, new_view}
use pa_bft.State.{State, create_state}
use pa_bft.Node.{Node}
use pa_bft.Node.Threads.{start_thread_if_not_exists, start_timer}
use pa_bft.Node.Starting.{is_some}
use pa_bft.Node.Dispatch.{hand_to, hand_to_new, resolve_counted, resolve_msg}

-- The sequence number of a message.
abbrev pub sequence_of : Message → ℕ
sequence_of (req_prepare msgs) = msgs.prepare_msg.sequence_id
sequence_of (voted r) = r.msg.sequence_id
sequence_of (collated c) = c.sequence_id
sequence_of (view_change m) = m.sequence_id
sequence_of (new_view m) = m.sequence_id

abbrev pub is_counted : Message → Bool
is_counted (voted r) = true
is_counted (collated c) = true
is_counted _ = false

-- A vote or a collate message comes too late, or too early for the first sequence number.
abbrev pub is_dropped : Node → Message → Bool
is_dropped node msg =
    let seq = sequence_of msg in
    is_counted msg
    && ((node.committed seq == 1) || ((seq == 1) && not (is_some (lookup seq node.states))))

abbrev pub queue_of : Option State → List Message
queue_of none = []
queue_of (some s) = s.msg_state.queue

-- What waits for the thread of a sequence number.
abbrev pub queue_at : Node → ℕ → List Message
queue_at node k = queue_of (lookup k node.states)

hand_to-queues :
    (node node' : Node) (seq : ℕ) (s : State) (msg : Message) (k : ℕ)
    → hand_to node seq s msg ≡ ok node'
    → queue_at node' k ≡ (if k == seq then s.msg_state.queue ++ msg ∷ [] else queue_at node k)
unfolding hand_to
hand_to-queues node node' seq s msg k h = ground (
  arith,
  lookup-insert seq k
      (record s { msg_state = record s.msg_state { queue = s.msg_state.queue ++ msg ∷ [] } })
      node.states,
)

start_thread-queues :
    (node node' : Node) (seq : ℕ) (s : State) (k : ℕ)
    → start_thread_if_not_exists node seq ≡ ok (node', s)
    → (queue_at node' k ≡ queue_at node k) × (s.msg_state.queue ≡ queue_at node seq)
unfolding start_thread_if_not_exists start_timer create_state
start_thread-queues node node' seq s k h =
    ground (arith, lookup-insert seq k s node.states, lookup-insert seq seq s node.states)

hand_to_new-queues :
    (node node' : Node) (seq : ℕ) (msg : Message) (k : ℕ)
    → hand_to_new node seq msg ≡ ok node'
    → queue_at node' k ≡ (if k == seq then queue_at node k ++ msg ∷ [] else queue_at node k)
unfolding hand_to_new
hand_to_new-queues node node' seq msg k h =
    let ((threaded, s), rest, e) = bind-returns (start_thread_if_not_exists node seq) _ h in
    ground (
      arith,
      hand_to-queues threaded node' seq s msg k rest,
      start_thread-queues node threaded seq s k e,
    )

resolve_counted-queues :
    (node node' : Node) (seq : ℕ) (msg : Message) (k : ℕ)
    → resolve_counted node seq msg ≡ ok node'
    → queue_at node' k ≡ (
        if (k == seq)
          && not
              ((node.committed seq == 1) || ((seq == 1) && not (is_some (lookup seq node.states))))
        then queue_at node k ++ msg ∷ []
        else queue_at node k)
unfolding resolve_counted
resolve_counted-queues node node' seq msg k h = elim (Option-cases (lookup seq node.states)) [
  | inl new ↦ ground (arith, hand_to_new-queues node node' seq msg k)
  | inr (s, old) ↦ ground (arith, hand_to-queues node node' seq s msg k)
]

-- A message that `resolveMsg` handles goes to the end of the queue of its own sequence number, and all
-- other queues stay. The exceptions are votes and collate messages for a sequence number that is
-- committed, and those for sequence number 1 that come before its thread is there: they are dropped.
pub resolve_msg-queues :
    (node node' : Node) (msg : Message) (k : ℕ)
    → resolve_msg node msg ≡ ok node'
    → queue_at node' k ≡ (
        if (k == sequence_of msg) && not (is_dropped node msg)
        then queue_at node k ++ msg ∷ []
        else queue_at node k)
unfolding resolve_msg
resolve_msg-queues node node' (req_prepare msgs) k h =
    ground
      (arith, hand_to_new-queues node node' msgs.prepare_msg.sequence_id (req_prepare msgs) k h)
resolve_msg-queues node node' (voted r) k h =
    resolve_counted-queues node node' r.msg.sequence_id (voted r) k h
resolve_msg-queues node node' (collated c) k h =
    resolve_counted-queues node node' c.sequence_id (collated c) k h
resolve_msg-queues node node' (view_change m) k h =
    ground (arith, hand_to_new-queues node node' m.sequence_id (view_change m) k h)
resolve_msg-queues node node' (new_view m) k h =
    ground (arith, hand_to_new-queues node node' m.sequence_id (new_view m) k h)
