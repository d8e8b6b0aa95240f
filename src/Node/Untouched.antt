-- ===== src/Node/Untouched.antt =====
-- What the loops of a view change (pbft/network/view.go) leave as it is.
use pa_bft.Base.{int64_key, ℕ, zero, suc, ◌≡◌, Bool-cases, inl, inr, arith, add64}
use pa_bft.Base.Map.{insert}
use pa_bft.Base.Outcome.{ok, bind-returns}
use pa_bft.Message.{NewViewMsg}
use pa_bft.Node.{Node}
use pa_bft.Node.Filling.{
  fill_log, raise_total, fill_hole, blank, empty_proposal, le64, committed_max_of, gap,
}
use pa_bft.Node.ViewChanging.{drop_one, drop_loop, drop_from}

-- Fields that no loop of a view change touches.
pub record SameNode (node node' : Node) : Type 0 where
  pub my_info : node'.my_info ≡ node.my_info
  pub node_table : node'.node_table ≡ node.node_table
  pub next_candidate_idx : node'.next_candidate_idx ≡ node.next_candidate_idx
  pub is_view_changing : node'.is_view_changing ≡ node.is_view_changing
  pub outbound : node'.msg_outbound ≡ node.msg_outbound

drop_loop-SameNode :
    (fuel : ℕ) (node node' : Node) (i top : ℕ)
    → drop_loop fuel node i top ≡ ok node'
    → SameNode node node'
unfolding drop_loop drop_one
drop_loop-SameNode zero node node' i top h = cc
drop_loop-SameNode (suc fuel) node node' i top h = elim (Bool-cases (le64 i top)) [
  | inl more ↦
      let (dropped, rest, e) =
        bind-returns {b = node'} (drop_one node i) (λ d. drop_loop fuel d (add64 i 1) top)
          (ground arith) in
      let one : SameNode node dropped = ground arith in
      ground (arith, drop_loop-SameNode fuel dropped node' (add64 i 1) top rest)
  | inr done ↦ ground arith
]

fill_log-SameNode :
    (fuel : ℕ) (node node' : Node) (i min_s : ℕ)
    → fill_log fuel node i min_s ≡ ok node'
    → SameNode node node'
unfolding fill_log blank
fill_log-SameNode zero node node' i min_s h = cc
fill_log-SameNode (suc fuel) node node' i min_s h =
    let p = empty_proposal node i in
    ground (
      arith,
      fill_log-SameNode fuel (record node { committed_msgs = insert i p node.committed_msgs }) node'
          (add64 i 1) min_s,
    )

raise_total-SameNode :
    (fuel : ℕ) (node node' : Node) (min_s : ℕ)
    → raise_total fuel node min_s ≡ ok node'
    → SameNode node node'
unfolding raise_total
raise_total-SameNode zero node node' min_s h = cc
raise_total-SameNode (suc fuel) node node' min_s h = ground (
  arith,
  raise_total-SameNode fuel (record node { total_consensus = add64 node.total_consensus 1 }) node'
      min_s,
)

pub fill_hole-SameNode :
    (node node' : Node) (nv : NewViewMsg) → fill_hole node nv ≡ ok node' → SameNode node node'
unfolding fill_hole
fill_hole-SameNode node node' nv h =
    let start = committed_max_of node in
    let (filled, rest, e) =
      bind-returns (fill_log (suc (suc (gap start nv.min_s))) node start nv.min_s) _ h in
    let a = fill_log-SameNode (suc (suc (gap start nv.min_s))) node filled start nv.min_s e in
    let b =
      raise_total-SameNode (suc (gap filled.total_consensus nv.min_s)) filled node' nv.min_s rest in
    ground arith

pub drop_from-SameNode :
    (node node' : Node) (seq : ℕ) → drop_from node seq ≡ ok node' → SameNode node node'
unfolding drop_from
drop_from-SameNode node node' seq h =
    drop_loop-SameNode (suc (suc (gap seq node.total_consensus))) node node' seq
      node.total_consensus h
