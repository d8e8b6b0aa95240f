-- ===== src/Node/Holes.antt =====
-- What FillHole (pbft/network/view.go) makes of the log.
use pa_bft.Base.{
  ◌+◌, int64_key, string_key, ℕ, suc, ◌-◌, ◌^◌, ◌≤◌, ◌<◌, ◌≡◌, ◌≢◌, refl, some, [], length, arith,
  if◌then◌else◌, leb,
}
use pa_bft.Base.Map.{lookup}
use pa_bft.Base.Outcome.{ok, panic, out_of_fuel, >>=-ends, bind-returns}
use pa_bft.Message.{PrepareMsg, NewViewMsg}
use pa_bft.Node.{Node}
use pa_bft.Node.Log.{InOrder, lookup-InOrder_past}
use pa_bft.Node.Fills.{
  fill_log-ends, raise_total-ends, committed_max_loop-InOrder, fill_log-InOrder, fill_log-total,
  fill_log-keeps, fill_log-first, raise_total_lem,
}
use pa_bft.Node.Filling.{
  fill_log, committed_max_loop, fill_hole, empty_proposal, committed_max_of, gap,
}
use pa_bft.Node.Execute.{Pairs, last_sequence_id, execute_msg, execute_loop}

-- Over a log in order, and for a Min_S that is not negative and below the largest int64, `FillHole`
-- ends: its two loops have fuel enough.
pub fill_hole-ends :
    (node : Node) (nv : NewViewMsg)
    → InOrder 1 node.committed_msgs
    → length node.committed_msgs < 2 ^ 63 - 1
    → node.total_consensus < 2 ^ 63
    → nv.min_s < 2 ^ 63 - 1
    → fill_hole node nv ≢ out_of_fuel
unfolding fill_hole committed_max_of
fill_hole-ends node nv o small total hm =
    let start = committed_max_loop 0 node.committed_msgs in
    let at = committed_max_loop-InOrder 0 node.committed_msgs o (omega arith) in
    let fuel = suc (suc (gap start nv.min_s)) in
    >>=-ends (fill_log fuel node start nv.min_s) _
      (fill_log-ends fuel node start nv.min_s (omega arith) hm (omega arith) (ground arith))
      (λ filled e.
        let same = fill_log-total fuel node filled start nv.min_s e in
        raise_total-ends (suc (gap filled.total_consensus nv.min_s)) filled nv.min_s (omega arith)
          hm (omega arith) (ground arith))

-- Over a log in order that is not empty, `FillHole` that returns leaves a log in order that reaches at
-- least to Min_S, and `TotalConsensus` is at least Min_S. It starts at the last executed entry and not
-- after it: where that is not above Min_S, an empty proposal replaces it.
pub fill_hole-InOrder :
    (node node' : Node) (nv : NewViewMsg)
    → InOrder 1 node.committed_msgs
    → 0 < length node.committed_msgs
    → length node.committed_msgs < 2 ^ 63 - 1
    → node.total_consensus < 2 ^ 63
    → nv.min_s < 2 ^ 63 - 1
    → fill_hole node nv ≡ ok node'
    → let last = length node.committed_msgs in
      InOrder 1 node'.committed_msgs
      × (length node'.committed_msgs ≡ (if leb last nv.min_s then nv.min_s else last))
      × (nv.min_s ≤ node'.total_consensus)
      × ((j : ℕ) → j < last → lookup j node'.committed_msgs ≡ lookup j node.committed_msgs)
      × (last ≤ nv.min_s → lookup last node'.committed_msgs ≡ some (empty_proposal node last))
unfolding fill_hole committed_max_of
fill_hole-InOrder node node' nv o some_log small total hm h =
    let m = node.committed_msgs in
    let start = committed_max_loop 0 m in
    let at : start ≡ length m = omega (arith, committed_max_loop-InOrder 0 m o (omega arith)) in
    let fuel = suc (suc (gap start nv.min_s)) in
    let (filled, rest, e) = bind-returns (fill_log fuel node start nv.min_s) _ h in
    let grown =
      fill_log-InOrder fuel node filled 1 start nv.min_s o (omega arith) (omega arith) (omega arith)
        hm e in
    let same = fill_log-total fuel node filled start nv.min_s e in
    let raised =
      raise_total_lem (suc (gap filled.total_consensus nv.min_s)) filled node' nv.min_s
        (ground arith) hm rest in
    (
      ground arith,
      ground arith,
      ground arith,
      λ j l. ground (arith, fill_log-keeps fuel node filled start j nv.min_s),
      λ l. ground (arith, fill_log-first fuel node filled start nv.min_s),
    )

-- From an empty log, and for a Min_S that is not negative and below the highest int64, with a
-- `TotalConsensus` that is not negative, `FillHole` that returns has written an entry 0: the log has the
-- entries 0 to Min_S. The executor then finds no entry at the length of the log, and panics at every
-- proposal.
pub fill_hole-breaks_executor :
    (node node' : Node) (nv : NewViewMsg) (pairs : Pairs) (p : PrepareMsg)
    → node.committed_msgs ≡ []
    → node.total_consensus < 2 ^ 63
    → nv.min_s < 2 ^ 63 - 1
    → fill_hole node nv ≡ ok node'
    → (lookup 0 node'.committed_msgs ≡ some (empty_proposal node 0))
      × InOrder 0 node'.committed_msgs
      × (length node'.committed_msgs ≡ nv.min_s + 1)
      × (execute_msg node' pairs (some p) ≡ panic)
unfolding fill_hole committed_max_of committed_max_loop execute_msg execute_loop last_sequence_id
fill_hole-breaks_executor node node' nv pairs p none_yet total hm h =
    let fuel = suc (suc (gap (committed_max_of node) nv.min_s)) in
    let (filled, rest, e) =
      bind-returns (fill_log fuel node (committed_max_of node) nv.min_s) _ h in
    let start : committed_max_of node ≡ 0 = rw none_yet refl in
    let o : InOrder 0 node.committed_msgs = ground arith in
    let grown =
      fill_log-InOrder fuel node filled 0 0 nv.min_s o (omega arith) (omega arith) (omega arith) hm
        (ground arith) in
    let same = fill_log-total fuel node filled (committed_max_of node) nv.min_s e in
    let raised =
      raise_total_lem (suc (gap filled.total_consensus nv.min_s)) filled node' nv.min_s
        (ground arith) hm rest in
    let past =
      lookup-InOrder_past 0 (length node'.committed_msgs) node'.committed_msgs (ground arith)
        (omega arith) in
    (
      ground (arith, fill_log-first fuel node filled 0 nv.min_s),
      ground arith,
      ground arith,
      ground arith,
    )
