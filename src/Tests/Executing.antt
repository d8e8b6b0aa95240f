-- ===== src/Tests/Executing.antt =====
-- The executor.
use pa_bft.Base.{
  int64_key, ℕ, zero, suc, ◌≤◌, Bool, true, false, ◌≡◌, ◌⊎◌, ◌&&◌, ◌||◌, ◌==◌, leb, length, refl,
  some, List, [], ◌∷◌, arith, map,
}
use pa_bft.Base.Map.{lookup, insert, delete}
use pa_bft.Base.Outcome.{Outcome, ok, returns}
use pa_bft.Message.{PrepareMsg}
use pa_bft.State.{create_state}
use pa_bft.Node.{Node}
use pa_bft.Node.Primary.{update_view_id, update_epoch_id}
use pa_bft.Node.Execute.{Pairs, execute_msg, execute_loop, execute_one, last_sequence_id}
use pa_bft.Node.Order.{IsOrdered}
use pa_bft.Node.Rounds.{Executed, execute_msg-Executed}
use pa_bft.Node.Chain.{execute_all, arrived, chain, execute_all-chain}
use pa_bft.Node.Agreement.{IsPrefix, execute_all-agree}
use pa_bft.Node.Progress.{IsReady, CanRun, execute_all-returns}
use pa_bft.Tests.Data.{started, proposal}

started-IsOrdered : IsOrdered started
started-IsOrdered = record { log = tt; short = omega arith; counted = λ i. ground arith }

-- The proposals 2 and 3 have come, and 1 comes.
abbrev waiting : Pairs
waiting = (2, proposal 2) ∷ (3, proposal 3) ∷ []

abbrev log_of : Outcome (Node × Pairs) → List (ℕ × ℕ)
log_of (ok (node, pairs)) = map (λ (x : ℕ × PrepareMsg). (x.0, x.1.sequence_id)) node.committed_msgs
log_of _ = []

executes_three :
    log_of (execute_msg started waiting (some (proposal 1))) ≡ (1, 1) ∷ (2, 2) ∷ (3, 3) ∷ []
unfolding execute_msg execute_loop execute_one last_sequence_id update_view_id update_epoch_id
    lookup insert delete create_state
executes_three = refl

abbrev node_of : Outcome (Node × Pairs) → Node
node_of (ok (node, pairs)) = node
node_of _ = started

abbrev pairs_of : Outcome (Node × Pairs) → Pairs
pairs_of (ok (node, pairs)) = pairs
pairs_of _ = []

execute_msg-Executed_example :
    let r = execute_msg started waiting (some (proposal 1)) in
    Executed started (node_of r) (insert 1 (proposal 1) waiting) (pairs_of r)
unfolding execute_msg execute_loop execute_one last_sequence_id update_view_id update_epoch_id
    lookup insert delete create_state
execute_msg-Executed_example =
    execute_msg-Executed started (node_of (execute_msg started waiting (some (proposal 1)))) waiting
      (pairs_of (execute_msg started waiting (some (proposal 1)))) (proposal 1) started-IsOrdered
      (omega arith) refl

started-IsReady : (k : ℕ) → 1 ≤ k → k ≤ 3 → IsReady started k
unfolding lookup create_state
started-IsReady zero l h = absurd (omega arith)
started-IsReady (suc zero) l h = record {
  thread = create_state 0 "Node1" 10 1;
  there = refl;
  stop = omega arith;
  exit = omega arith;
  exit1 = omega arith;
}
started-IsReady (suc (suc zero)) l h = record {
  thread = create_state 0 "Node1" 10 2;
  there = refl;
  stop = omega arith;
  exit = omega arith;
  exit1 = omega arith;
}
started-IsReady (suc (suc (suc zero))) l h = record {
  thread = create_state 0 "Node1" 10 3;
  there = refl;
  stop = omega arith;
  exit = omega arith;
  exit1 = omega arith;
}
started-IsReady (suc (suc (suc (suc k)))) l h = absurd (omega arith)

-- The proposals 2, 1 and 3 come in this order, and 1 once more.
abbrev coming : List PrepareMsg
coming = proposal 2 ∷ proposal 1 ∷ proposal 3 ∷ proposal 1 ∷ []

abbrev up_to_three : ℕ → Bool
up_to_three k = leb 1 k && leb k 3

started-CanRun : CanRun started [] up_to_three (length coming)
unfolding lookup
started-CanRun = record {
  ordered = started-IsOrdered;
  keyed = tt;
  table = omega arith;
  short = omega arith;
  ready = λ k w past. started-IsReady k (ground (arith, w)) (ground (arith, w));
  known = λ k f. cc;
}

coming_known : (k : ℕ) → arrived k coming ≡ true → up_to_three k ≡ true
coming_known k a =
    let met : ((2 == k) || ((1 == k) || ((3 == k) || ((1 == k) || false)))) ≡ true = a in
    ground (arith, met)

execute_all-returns_example : returns (execute_all started [] coming) ≡ true
execute_all-returns_example =
    execute_all-returns coming started [] up_to_three started-CanRun coming_known

-- The same without the second message for 1, as another node may get them.
abbrev coming_b : List PrepareMsg
coming_b = proposal 1 ∷ proposal 3 ∷ []

abbrev after : List PrepareMsg → Outcome (Node × Pairs)
after ps = execute_all started [] ps

execute_all-chain_example :
    let n = length (node_of (after coming)).committed_msgs in
    ((node_of (after coming)).committed_msgs ≡ chain proposal n)
    × ((k : ℕ) → 1 ≤ k → k ≤ n → arrived k coming ≡ true)
    × (arrived (suc n) coming ≡ false)
unfolding execute_all execute_msg execute_loop execute_one last_sequence_id update_view_id
    update_epoch_id lookup insert delete create_state
execute_all-chain_example =
    execute_all-chain proposal coming started (node_of (after coming)) (pairs_of (after coming))
      started-IsOrdered refl (refl, (refl, (refl, (refl, tt)))) refl

execute_all-agree_example :
    (IsPrefix (node_of (after coming)).committed_msgs (node_of (after coming_b)).committed_msgs
      ⊎ IsPrefix (node_of (after coming_b)).committed_msgs (node_of (after coming)).committed_msgs)
    × (((k : ℕ) → arrived k coming ≡ arrived k coming_b)
        → (node_of (after coming)).committed_msgs ≡ (node_of (after coming_b)).committed_msgs)
unfolding execute_all execute_msg execute_loop execute_one last_sequence_id update_view_id
    update_epoch_id lookup insert delete create_state
execute_all-agree_example =
    execute_all-agree proposal coming coming_b started (node_of (after coming)) started
      (node_of (after coming_b)) (pairs_of (after coming)) (pairs_of (after coming_b))
      (started-IsOrdered, refl) (started-IsOrdered, refl)
      ((refl, (refl, (refl, (refl, tt)))), (refl, (refl, tt))) refl refl
