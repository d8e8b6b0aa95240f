-- ===== src/Node/Execute.antt =====
-- executeMsg (pbft/network/node.go): the committed proposals are executed in the order of their
-- sequence numbers, whatever the order in which they come.
use pa_bft.Base.{
  int64_key, ℕ, zero, suc, Option, none, some, length, ltb, ◌==◌, if◌then◌else◌, add64, rem64,
}
use pa_bft.Base.Map.{Map, lookup, insert, delete}
use pa_bft.Base.Chan.{send}
use pa_bft.Base.Outcome.{Outcome, ok, panic, out_of_fuel, deref, sent, ◌>>=◌}
use pa_bft.Message.{PrepareMsg}
use pa_bft.Node.{Node, in_array, write}
use pa_bft.Node.Primary.{update_view_id, update_epoch_id}

-- The local map of proposals that are committed and not executed.
abbrev pub Pairs : Type 0
Pairs = Map ℕ PrepareMsg

-- The last executed sequence number: that of the entry at `len(CommittedMsgs)`, or 0.
unfoldable pub last_sequence_id : Node → Outcome ℕ
last_sequence_id node =
    let count = length node.committed_msgs in
    if ltb 0 count
    then (do msg ← deref (lookup count node.committed_msgs); ok msg.sequence_id)
    else ok 0

-- One execution, of `p` after the sequence number `last`: the view-change timer of the sequence is
-- stopped, the log and the counter are written, the threads of the sequence are told to exit, and the
-- view and the epoch follow.
unfoldable pub execute_one : Node → ℕ → PrepareMsg → Outcome Node
execute_one node last p = do
  let seq = add64 last 1
  timed ← deref (lookup p.sequence_id node.states)
  stop ← sent (send timed.timer_stop_ch "ViewChange")
  let node1 : Node = record node {
    states = insert p.sequence_id (record timed { timer_stop_ch = stop }) node.states;
    committed_msgs = insert seq p node.committed_msgs;
  }
  counted ←
      if in_array seq
      then ok (record node1 {
        committed = write node1.committed seq (add64 (node1.committed seq) 1);
        stable_check_point = seq;
      })
      else panic
  state ← deref (lookup counted.stable_check_point counted.states)
  exit ← sent (send state.msg_exit 0)
  exit1 ← sent (send state.msg_exit1 0)
  let node2 : Node = record counted {
    states =
        insert counted.stable_check_point (record state { msg_exit = exit; msg_exit1 = exit1 })
          counted.states;
    stable_check_point = seq;
  }
  viewed ← update_view_id node2 node2.stable_check_point
  let node3 = update_epoch_id viewed viewed.stable_check_point
  ok (
      if rem64 node3.stable_check_point 10 == 0
      then record node3 { next_candidate_idx = 10 }
      else node3)

-- The inner loop, on fuel: it ends where no proposal stands for the next sequence number.
unfoldable pub execute_loop : ℕ → Node → Pairs → Outcome (Node × Pairs)
execute_loop zero node pairs = out_of_fuel
execute_loop (suc fuel) node pairs = do
  last ← last_sequence_id node
  elim (lookup (add64 last 1) pairs) [
    | none ↦ ok (node, pairs)
    | some p ↦ (do
      node' ← execute_one node last p
      execute_loop fuel node' (delete (add64 last 1) pairs))
  ]

-- One round of `executeMsg`, at a proposal from `MsgExecution`. A nil proposal is dereferenced.
unfoldable pub execute_msg : Node → Pairs → Option PrepareMsg → Outcome (Node × Pairs)
execute_msg node pairs received = do
  p ← deref received
  let pairs' = insert p.sequence_id p pairs
  execute_loop (suc (length pairs')) node pairs'
