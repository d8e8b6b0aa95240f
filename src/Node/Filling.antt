-- ===== src/Node/Filling.antt =====
-- FindStableCheckpoint and FillHole (pbft/network/view.go): the checkpoint that a new view starts from,
-- and the blank proposals that fill the log up to it.
use pa_bft.Base.{
  int64_key, ℕ, zero, suc, ◌==◌, String, Bool, true, false, [], ◌∷◌, length, add64, div64, signed64,
  ltb_ℤ, leb_ℤ, pos_part, ◌-ℤ◌, if◌then◌else◌,
}
use pa_bft.Base.Map.{Map, insert}
use pa_bft.Base.Outcome.{Outcome, ok, panic, out_of_fuel, ◌>>=◌}
use pa_bft.Message.{PrepareMsg, ViewChangeMsg, NewViewMsg}
use pa_bft.Node.{Node}

abbrev pub lt64 : ℕ → ℕ → Bool
lt64 a b = ltb_ℤ (signed64 a) (signed64 b)

abbrev pub le64 : ℕ → ℕ → Bool
le64 a b = leb_ℤ (signed64 a) (signed64 b)

unfoldable pub min_s_loop : ℕ → Map String ViewChangeMsg → ℕ
min_s_loop min_s [] = min_s
min_s_loop min_s ((id, vcm) ∷ rest) =
    min_s_loop (if lt64 min_s vcm.stable_check_point then vcm.stable_check_point else min_s) rest

-- The method does not use its node.
unfoldable pub find_stable_checkpoint : NewViewMsg → ℕ
unfolding min_s_loop
find_stable_checkpoint nv = min_s_loop 0 nv.set_view_change_msgs

unfoldable pub committed_max_loop : ℕ → Map ℕ PrepareMsg → ℕ
committed_max_loop committed_max [] = committed_max
committed_max_loop committed_max ((seq, p) ∷ rest) =
    committed_max_loop (if le64 committed_max seq then seq else committed_max) rest

unfoldable pub committed_max_of : Node → ℕ
unfolding committed_max_loop
committed_max_of node = committed_max_loop 0 node.committed_msgs

-- A proposal with nothing in it, for a sequence number.
abbrev pub empty_proposal : Node → ℕ → PrepareMsg
empty_proposal node seq = record {
  view_id = 0;
  sequence_id = seq;
  digest = "";
  epoch_id = div64 seq (length node.node_table);
  node_id = "";
  seed = 0;
}

-- A division by the length of an empty table panics.
unfoldable pub blank : Node → ℕ → Outcome PrepareMsg
blank node seq = if length node.node_table == 0 then panic else ok (empty_proposal node seq)

-- `for committedMax <= newviewMsg.Min_S`, on fuel.
unfoldable pub fill_log : ℕ → Node → ℕ → ℕ → Outcome Node
fill_log zero node committed_max min_s = out_of_fuel
fill_log (suc fuel) node committed_max min_s = elim (le64 committed_max min_s) [
  | false ↦ ok node
  | true ↦ (do
    p ← blank node committed_max
    fill_log fuel (record node { committed_msgs = insert committed_max p node.committed_msgs })
        (add64 committed_max 1) min_s)
]

-- `for node.TotalConsensus < newviewMsg.Min_S`, on fuel.
unfoldable pub raise_total : ℕ → Node → ℕ → Outcome Node
raise_total zero node min_s = out_of_fuel
raise_total (suc fuel) node min_s = elim (lt64 node.total_consensus min_s) [
  | false ↦ ok node
  | true ↦ raise_total fuel (record node { total_consensus = add64 node.total_consensus 1 }) min_s
]

-- How far `a` lies below `b`, as signed numbers.
abbrev pub gap : ℕ → ℕ → ℕ
gap a b = pos_part (signed64 b -ℤ signed64 a)

-- The first loop makes a round for each number from the maximum to Min_S, the second one for each
-- number below Min_S; each gets a unit of fuel more.
unfoldable pub fill_hole : Node → NewViewMsg → Outcome Node
unfolding committed_max_of fill_log raise_total blank
fill_hole node nv = do
  let start = committed_max_of node
  filled ← fill_log (suc (suc (gap start nv.min_s))) node start nv.min_s
  raise_total (suc (gap filled.total_consensus nv.min_s)) filled nv.min_s
