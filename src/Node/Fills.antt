-- ===== src/Node/Fills.antt =====
-- The two loops of FillHole (pbft/network/view.go).
use pa_bft.Base.{
  int64_key, string_key, ℕ, zero, suc, ◌+◌, ◌-◌, ◌^◌, ◌≤◌, ◌<◌, ◌≡◌, ◌≢◌, refl, some, [], ◌∷◌,
  length, arith, if◌then◌else◌, add64, leb,
}
use pa_bft.Base.Map.{Map, lookup, insert, lookup-insert}
use pa_bft.Base.Outcome.{ok, out_of_fuel}
use pa_bft.Message.{PrepareMsg}
use pa_bft.Node.{Node}
use pa_bft.Node.Log.{InOrder, insert-InOrder}
use pa_bft.Node.Filling.{fill_log, committed_max_loop, raise_total, blank, empty_proposal}

-- The node after a round of the first loop.
abbrev with_blank : Node → ℕ → Node
with_blank node i = record node {
  committed_msgs = insert i (empty_proposal node i) node.committed_msgs;
}

pub fill_log-ends :
    (fuel : ℕ) (node : Node) (i min_s : ℕ)
    → i < 2 ^ 63
    → min_s < 2 ^ 63 - 1
    → 0 < fuel
    → suc min_s < i + fuel
    → fill_log fuel node i min_s ≢ out_of_fuel
unfolding fill_log blank
fill_log-ends zero node i min_s hi hm f l h = elim f [ ]
fill_log-ends (suc fuel) node i min_s hi hm f l h =
    ground (arith, fill_log-ends fuel (with_blank node i) (add64 i 1) min_s)

pub raise_total-ends :
    (fuel : ℕ) (node : Node) (min_s : ℕ)
    → node.total_consensus < 2 ^ 63
    → min_s < 2 ^ 63 - 1
    → 0 < fuel
    → min_s < node.total_consensus + fuel
    → raise_total fuel node min_s ≢ out_of_fuel
unfolding raise_total
raise_total-ends zero node min_s ht hm f l h = elim f [ ]
raise_total-ends (suc fuel) node min_s ht hm f l h = ground (
  arith,
  raise_total-ends fuel (record node { total_consensus = add64 node.total_consensus 1 }) min_s,
)

pub committed_max_loop-InOrder :
    (acc : ℕ) (m : Map ℕ PrepareMsg)
    → InOrder (suc acc) m
    → acc + length m < 2 ^ 63
    → committed_max_loop acc m ≡ acc + length m
unfolding committed_max_loop
committed_max_loop-InOrder acc [] o small = omega arith
committed_max_loop-InOrder acc ((k, p) ∷ m) o small =
    ground (arith, committed_max_loop-InOrder (suc acc) m o.2)

-- The first loop, from a log that is in order and ends at the place of the loop or later.
pub fill_log-InOrder :
    (fuel : ℕ) (node node' : Node) (b i min_s : ℕ)
    → InOrder b node.committed_msgs
    → b ≤ i
    → i ≤ b + length node.committed_msgs
    → i < 2 ^ 63
    → min_s < 2 ^ 63 - 1
    → fill_log fuel node i min_s ≡ ok node'
    → InOrder b node'.committed_msgs
      × (b + length node'.committed_msgs ≡ (
          if leb (b + length node.committed_msgs) min_s
          then suc min_s
          else b + length node.committed_msgs))
unfolding fill_log blank
fill_log-InOrder zero node node' b i min_s o l r hi hm h = cc
fill_log-InOrder (suc fuel) node node' b i min_s o l r hi hm h = ground (
  arith,
  insert-InOrder b i (empty_proposal node i) node.committed_msgs o l r refl,
  fill_log-InOrder fuel (with_blank node i) node' b (add64 i 1) min_s,
)

pub fill_log-total :
    (fuel : ℕ) (node node' : Node) (i min_s : ℕ)
    → fill_log fuel node i min_s ≡ ok node'
    → node'.total_consensus ≡ node.total_consensus
unfolding fill_log blank
fill_log-total zero node node' i min_s h = cc
fill_log-total (suc fuel) node node' i min_s h =
    ground (arith, fill_log-total fuel (with_blank node i) node' (add64 i 1) min_s)

pub fill_log-keeps :
    (fuel : ℕ) (node node' : Node) (i j min_s : ℕ)
    → j < i
    → min_s < 2 ^ 63 - 1
    → i < 2 ^ 63
    → fill_log fuel node i min_s ≡ ok node'
    → lookup j node'.committed_msgs ≡ lookup j node.committed_msgs
unfolding fill_log blank
fill_log-keeps zero node node' i j min_s l hm hi h = cc
fill_log-keeps (suc fuel) node node' i j min_s l hm hi h = ground (
  arith,
  lookup-insert i j (empty_proposal node i) node.committed_msgs,
  fill_log-keeps fuel (with_blank node i) node' (add64 i 1) j min_s,
)

pub fill_log-first :
    (fuel : ℕ) (node node' : Node) (i min_s : ℕ)
    → i ≤ min_s
    → min_s < 2 ^ 63 - 1
    → fill_log fuel node i min_s ≡ ok node'
    → lookup i node'.committed_msgs ≡ some (empty_proposal node i)
unfolding fill_log blank
fill_log-first zero node node' i min_s l hm h = cc
fill_log-first (suc fuel) node node' i min_s l hm h = ground (
  arith,
  lookup-insert i i (empty_proposal node i) node.committed_msgs,
  fill_log-keeps fuel (with_blank node i) node' (add64 i 1) i min_s,
)

pub raise_total_lem :
    (fuel : ℕ) (node node' : Node) (min_s : ℕ)
    → node.total_consensus < 2 ^ 63
    → min_s < 2 ^ 63 - 1
    → raise_total fuel node min_s ≡ ok node'
    → (node'.committed_msgs ≡ node.committed_msgs)
      × (node'.total_consensus
          ≡ (if leb min_s node.total_consensus then node.total_consensus else min_s))
unfolding raise_total
raise_total_lem zero node node' min_s ht hm h = cc
raise_total_lem (suc fuel) node node' min_s ht hm h = ground (
  arith,
  raise_total_lem fuel (record node { total_consensus = add64 node.total_consensus 1 }) node' min_s,
)
