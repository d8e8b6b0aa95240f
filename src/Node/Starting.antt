-- ===== src/Node/Starting.antt =====
-- What StartThreadIfNotExists and BroadCastNextPrepareMsgIfPrimary (pbft/network/node.go) change.
use pa_bft.Base.{int64_key, ℕ, ◌≡◌, ◌≢◌, Bool, true, false, Option, none, some, arith, add64}
use pa_bft.Base.Map.{lookup, lookup-insert}
use pa_bft.Base.Outcome.{ok}
use pa_bft.State.{State}
use pa_bft.Node.{Node}
use pa_bft.Node.Primary.{update_view_id, update_epoch_id}
use pa_bft.Node.Threads.{
  Env, broadcast, start_timer, start_thread_if_not_exists, broad_cast_next_prepare_msg_if_primary,
}

--
abbrev pub is_some {ℓ} : {A : Type ℓ} → Option A → Bool
is_some none = false
is_some (some a) = true

-- `StartThreadIfNotExists` that returns: afterwards the node has a thread for the sequence number,
-- which is the one that is returned, and the threads of other sequence numbers are kept. Where a thread
-- was there, nothing changes; else `TotalConsensus` grows by one, as an int64. The log, the counters and
-- the queue of the executor stay.
pub start_thread_if_not_exists_lem :
    (node node' : Node) (seq : ℕ) (s : State)
    → start_thread_if_not_exists node seq ≡ ok (node', s)
    → (lookup seq node'.states ≡ some s)
      × ((k : ℕ) → k ≢ seq → lookup k node'.states ≡ lookup k node.states)
      × (is_some (lookup seq node.states) ≡ true → node' ≡ node)
      × (is_some (lookup seq node.states) ≡ false
          → node'.total_consensus ≡ add64 node.total_consensus 1)
      × (node'.committed_msgs ≡ node.committed_msgs)
      × (node'.prepared ≡ node.prepared)
      × (node'.committed ≡ node.committed)
      × (node'.msg_execution ≡ node.msg_execution)
unfolding start_thread_if_not_exists start_timer
start_thread_if_not_exists_lem node node' seq s h = (
  ground (arith, lookup-insert seq seq s node.states),
  λ k n. ground (arith, lookup-insert seq k s node.states),
  ground arith,
  ground arith,
  ground arith,
  ground arith,
  ground arith,
  ground arith,
)

pub start_thread_if_not_exists-frame :
    (node node' : Node) (seq : ℕ) (s : State)
    → start_thread_if_not_exists node seq ≡ ok (node', s)
    → node' ≡ record node { states = node'.states; total_consensus = node'.total_consensus }
unfolding start_thread_if_not_exists start_timer
start_thread_if_not_exists-frame node node' seq s h = ground arith

pub broad_cast_next_prepare_msg_if_primary-keeps :
    (env : Env) (node node' : Node) (seq now : ℕ)
    → broad_cast_next_prepare_msg_if_primary env node seq now ≡ ok node'
    → (node'.states ≡ node.states)
      × (node'.committed_msgs ≡ node.committed_msgs)
      × (node'.prepared ≡ node.prepared)
      × (node'.committed ≡ node.committed)
      × (node'.msg_execution ≡ node.msg_execution)
unfolding broad_cast_next_prepare_msg_if_primary broadcast update_view_id update_epoch_id
broad_cast_next_prepare_msg_if_primary-keeps env node node' seq now h = ground arith
