-- ===== src/Node/Checkpoint.antt =====
-- What FindStableCheckpoint (pbft/network/view.go) finds.
use pa_bft.Base.{
  int64_key, string_key, ℕ, ◌^◌, ◌≤◌, ◌<◌, ◌≡◌, ◌⊎◌, inl, inr, refl, String, [], ◌∷◌, arith,
  Bool-cases,
}
use pa_bft.Base.Map.{Map}
use pa_bft.Message.{ViewChangeMsg, NewViewMsg}
use pa_bft.Node.Filling.{find_stable_checkpoint, min_s_loop, lt64}

-- Every checkpoint of the set is a number, at most this one.
abbrev pub AllBelow : ℕ → Map String ViewChangeMsg → Type 0
AllBelow top [] = Unit {0}
AllBelow top ((id, vcm) ∷ rest) = (vcm.stable_check_point ≤ top) × AllBelow top rest

-- Some message of the set has this checkpoint.
abbrev pub SomeAt : ℕ → Map String ViewChangeMsg → Type 0
SomeAt top [] = ⊥
SomeAt top ((id, vcm) ∷ rest) = (vcm.stable_check_point ≡ top) ⊎ SomeAt top rest

min_s_loop-max :
    (start top : ℕ) (m : Map String ViewChangeMsg)
    → start < 2 ^ 63
    → top < 2 ^ 63
    → AllBelow top m
    → (start ≤ min_s_loop start m)
      × AllBelow (min_s_loop start m) m
      × ((min_s_loop start m ≡ start) ⊎ SomeAt (min_s_loop start m) m)
unfolding min_s_loop
min_s_loop-max start top [] hs ht w = (omega arith, tt, inl refl)
min_s_loop-max start top ((id, vcm) ∷ m) hs ht w =
    elim (Bool-cases (lt64 start vcm.stable_check_point)) [
      | inl up ↦
          ground (arith, min_s_loop-max vcm.stable_check_point top m (omega (arith, w.0)) ht w.1)
      | inr stay ↦ ground (arith, min_s_loop-max start top m hs ht w.1)
    ]

-- Over checkpoints that are not negative, `FindStableCheckpoint` returns the highest one: none of the
-- set is above it, and it is one of them, or 0.
pub find_stable_checkpoint-max :
    (nv : NewViewMsg) (top : ℕ)
    → top < 2 ^ 63
    → AllBelow top nv.set_view_change_msgs
    → AllBelow (find_stable_checkpoint nv) nv.set_view_change_msgs
      × ((find_stable_checkpoint nv ≡ 0)
          ⊎ SomeAt (find_stable_checkpoint nv) nv.set_view_change_msgs)
unfolding find_stable_checkpoint
find_stable_checkpoint-max nv top small w =
    let m = min_s_loop-max 0 top nv.set_view_change_msgs (omega arith) small w in (m.1, m.2)
