-- ===== src/Node/Dropping.antt =====
-- The loop of GetViewChange and GetNewView (pbft/network/view.go) that drops what a node holds from a
-- sequence number on.
use pa_bft.Base.{
  int64_key, ℕ, ◌==◌, inl, inr, Bool-cases, zero, suc, ◌+◌, ◌-◌, ◌^◌, ◌≤◌, ◌<◌, ◌≡◌, ◌≢◌, Bool,
  none, leb, ◌&&◌, arith, if◌then◌else◌, add64, sub64,
}
use pa_bft.Base.Map.{lookup, delete, lookup-delete}
use pa_bft.Base.Outcome.{ok, out_of_fuel, bind-returns, >>=-ends}
use pa_bft.Node.{Node}
use pa_bft.Node.Filling.{le64, gap}
use pa_bft.Node.ViewChanging.{drop_one, drop_loop, drop_from}

drop_one_lem :
    (node node' : Node) (i : ℕ)
    → drop_one node i ≡ ok node'
    → (i < 1000)
      × (node' ≡ record node {
        committed_msgs = delete i node.committed_msgs;
        committed = node'.committed;
        prepared = node'.prepared;
        states = delete i node.states;
        total_consensus = sub64 node.total_consensus 1;
      })
      × ((k : ℕ) → node'.committed k ≡ (if i == k then 0 else node.committed k))
      × ((k : ℕ) → node'.prepared k ≡ (if i == k then 0 else node.prepared k))
unfolding drop_one
drop_one_lem node node' i h = (ground arith, ground arith, λ k. ground arith, λ k. ground arith)

-- Whether the loop from `i` to `top` passes a number.
abbrev pub in_range : ℕ → ℕ → ℕ → Bool
in_range i top k = leb i k && leb k top

drop_loop_lem :
    (fuel : ℕ) (node node' : Node) (i top k : ℕ)
    → i < 2 ^ 63
    → top < 2 ^ 63 - 1
    → drop_loop fuel node i top ≡ ok node'
    → (lookup k node'.states ≡ (if in_range i top k then none else lookup k node.states))
      × (lookup k node'.committed_msgs
          ≡ (if in_range i top k then none else lookup k node.committed_msgs))
      × (node'.committed k ≡ (if in_range i top k then 0 else node.committed k))
      × (node'.prepared k ≡ (if in_range i top k then 0 else node.prepared k))
unfolding drop_loop
drop_loop_lem zero node node' i top k hi ht h = cc
drop_loop_lem (suc fuel) node node' i top k hi ht h = elim (Bool-cases (le64 i top)) [
  | inl more ↦
      let (dropped, rest, e) =
        bind-returns {b = node'} (drop_one node i) (λ d. drop_loop fuel d (add64 i 1) top)
          (ground arith) in
      let one = drop_one_lem node dropped i e in
      ground (
        arith,
        one.1,
        one.2 k,
        one.3 k,
        lookup-delete i k node.states,
        lookup-delete i k node.committed_msgs,
        drop_loop_lem fuel dropped node' (add64 i 1) top k,
      )
  | inr done ↦ ground arith
]

drop_one-ends : (node : Node) (i : ℕ) → drop_one node i ≢ out_of_fuel
unfolding drop_one
drop_one-ends node i h = ground arith

drop_loop-ends :
    (fuel : ℕ) (node : Node) (i top : ℕ)
    → i < 2 ^ 63
    → top < 2 ^ 63 - 1
    → 0 < fuel
    → suc top < i + fuel
    → drop_loop fuel node i top ≢ out_of_fuel
unfolding drop_loop
drop_loop-ends zero node i top hi ht f l h = elim f [ ]
drop_loop-ends (suc fuel) node i top hi ht f l h = elim (Bool-cases (le64 i top)) [
  | inl more ↦
      >>=-ends (drop_one node i) (λ d. drop_loop fuel d (add64 i 1) top) (drop_one-ends node i)
        (λ d e.
          drop_loop-ends fuel d (add64 i 1) top (ground arith) ht (ground arith) (ground arith))
        (ground arith)
  | inr done ↦ ground arith
]

drop_loop-keeps :
    (fuel : ℕ) (node node' : Node) (i top : ℕ)
    → i < 2 ^ 63
    → top < 2 ^ 63 - 1
    → suc top ≤ i + node.total_consensus
    → node.total_consensus < 2 ^ 63
    → drop_loop fuel node i top ≡ ok node'
    → (node' ≡ record node {
      committed_msgs = node'.committed_msgs;
      committed = node'.committed;
      prepared = node'.prepared;
      states = node'.states;
      total_consensus =
          if leb i top then node.total_consensus - suc (top - i) else node.total_consensus;
    })
unfolding drop_loop
drop_loop-keeps zero node node' i top hi ht room small h = cc
drop_loop-keeps (suc fuel) node node' i top hi ht room small h = elim (Bool-cases (le64 i top)) [
  | inl more ↦
      let (dropped, rest, e) =
        bind-returns {b = node'} (drop_one node i) (λ d. drop_loop fuel d (add64 i 1) top)
          (ground arith) in
      let one = drop_one_lem node dropped i e in
      ground (arith, one.1, drop_loop-keeps fuel dropped node' (add64 i 1) top)
  | inr done ↦ ground arith
]

-- What is dropped when a view changes at sequence number `seq`, which is positive, with `TotalConsensus`
-- below 2 ^ 63 - 1, and the loop returns: everything from `seq` to `TotalConsensus`, and nothing below or
-- above. `TotalConsensus` becomes `seq` - 1 where `seq` is not above it, and is as it was otherwise.
pub drop_from_lem :
    (node node' : Node) (seq k : ℕ)
    → 0 < seq
    → seq < 2 ^ 63
    → node.total_consensus < 2 ^ 63 - 1
    → drop_from node seq ≡ ok node'
    → let gone = in_range seq node.total_consensus k in
      (lookup k node'.states ≡ (if gone then none else lookup k node.states))
      × (lookup k node'.committed_msgs ≡ (if gone then none else lookup k node.committed_msgs))
      × (node'.committed k ≡ (if gone then 0 else node.committed k))
      × (node'.prepared k ≡ (if gone then 0 else node.prepared k))
      × (node'.total_consensus
          ≡ (if leb seq node.total_consensus then seq - 1 else node.total_consensus))
unfolding drop_from
drop_from_lem node node' seq k pos hs ht h =
    let top = node.total_consensus in
    let fuel = suc (suc (gap seq top)) in
    let d = drop_loop_lem fuel node node' seq top k hs ht h in
    let kept = drop_loop-keeps fuel node node' seq top hs ht in ground arith

-- The loop that drops has fuel enough, and ends.
pub drop_from-ends :
    (node : Node) (seq : ℕ)
    → seq < 2 ^ 63
    → node.total_consensus < 2 ^ 63 - 1
    → drop_from node seq ≢ out_of_fuel
unfolding drop_from
drop_from-ends node seq hs ht =
    drop_loop-ends (suc (suc (gap seq node.total_consensus))) node seq node.total_consensus hs ht
      (omega arith) (ground arith)
