-- ===== src/Node/Cutting.antt =====
-- The log (pbft/network/view.go) when a view change drops what comes from a sequence number on.
use pa_bft.Base.{
  int64_key, ℕ, zero, suc, ◌+◌, ◌-◌, ◌^◌, ◌≤◌, ◌<◌, ◌≡◌, ◌∙◌, refl, ap, ltb, if◌then◌else◌, [], ◌∷◌,
  ◌++◌, length, arith, add64, Bool-cases, inl, inr,
}
use mathlib.Core.Path.{subst}
use mathlib.Core.List.{append-nil}
use pa_bft.Base.Map.{Map, delete}
use pa_bft.Base.Outcome.{ok, bind-returns}
use pa_bft.Message.{PrepareMsg}
use pa_bft.Node.{Node}
use pa_bft.Node.Log.{InOrder}
use pa_bft.Node.Filling.{le64, gap}
use pa_bft.Node.ViewChanging.{drop_one, drop_loop, drop_from}

delete-append : (k : ℕ) (a b : Map ℕ PrepareMsg) → delete k (a ++ b) ≡ delete k a ++ delete k b
unfolding delete
delete-append k [] b = refl
delete-append k ((j, p) ∷ a) b = ground (arith, delete-append k a b)

-- A number below or above the log is not in it.
delete-InOrder_below : (i k : ℕ) (m : Map ℕ PrepareMsg) → InOrder i m → k < i → delete k m ≡ m
unfolding delete
delete-InOrder_below i k [] o l = refl
delete-InOrder_below i k ((j, p) ∷ m) o l = ground (arith, delete-InOrder_below (suc i) k m o.2)

delete-InOrder_above :
    (i k : ℕ) (m : Map ℕ PrepareMsg) → InOrder i m → i + length m ≤ k → delete k m ≡ m
unfolding delete
delete-InOrder_above i k [] o l = refl
delete-InOrder_above i k ((j, p) ∷ m) o l = ground (arith, delete-InOrder_above (suc i) k m o.2)

-- What is left when the first entry is deleted.
delete-InOrder_first :
    (i : ℕ) (m : Map ℕ PrepareMsg)
    → InOrder i m
    → InOrder (suc i) (delete i m) × (length (delete i m) ≡ length m - 1)
unfolding delete
delete-InOrder_first i [] o = (tt, omega arith)
delete-InOrder_first i ((j, p) ∷ m) o =
    let same = delete-InOrder_below (suc i) i m o.2 (omega arith) in ground (arith, same)

is_nil : (m : Map ℕ PrepareMsg) → length m ≡ 0 → m ≡ []
is_nil [] e = refl
is_nil (x ∷ m) e = absurd (omega arith)

-- The loop at number `i`: the kept part of the log, and the rest, which starts at `i`.
drop_loop-log :
    (fuel : ℕ) (node node' : Node) (i top : ℕ) (kept rest : Map ℕ PrepareMsg)
    → i < 2 ^ 63
    → top < 2 ^ 63 - 1
    → node.committed_msgs ≡ kept ++ rest
    → InOrder 1 kept
    → length kept < i
    → InOrder i rest
    → length rest ≤ suc top - i
    → drop_loop fuel node i top ≡ ok node'
    → node'.committed_msgs ≡ kept
unfolding drop_loop
drop_loop-log zero node node' i top kept rest hi ht e ok_kept l ok_rest enough h = cc
drop_loop-log (suc fuel) node node' i top kept rest hi ht e ok_kept l ok_rest enough h =
    elim (Bool-cases (le64 i top)) [
      | inl more ↦
          let (dropped, later, one) =
            bind-returns {b = node'} (drop_one node i) (λ d. drop_loop fuel d (add64 i 1) top)
              (ground arith) in
          let log : dropped.committed_msgs ≡ delete i node.committed_msgs =
            unfold drop_one in ground arith in
          let (o, size) = delete-InOrder_first i rest ok_rest in
          let z : add64 i 1 ≡ suc i = ground arith in
          let within : i ≤ top = ground (arith, more) in
          let cut : dropped.committed_msgs ≡ kept ++ delete i rest =
            log
            ∙ ap (delete i) e
            ∙ delete-append i kept rest
            ∙ ap (λ a. a ++ delete i rest) (delete-InOrder_above 1 i kept ok_kept (omega arith)) in
          drop_loop-log fuel dropped node' (add64 i 1) top kept (delete i rest)
            (rw z (ground arith)) ht cut ok_kept (rw z (omega arith)) (rw z o)
            (rw z (omega (arith, size, within))) later
      | inr done ↦
          let past : top < i = ground (arith, done) in
          let none_left : rest ≡ [] = is_nil rest (omega arith) in
          let same : node' ≡ node = ground (arith, done) in
          ap (λ n. n.committed_msgs) same ∙ e ∙ ap (λ r. kept ++ r) none_left ∙ append-nil kept
    ]

-- A log in two parts, the first of which has `n` entries, or all that there are.
split-InOrder :
    (i n : ℕ) (m : Map ℕ PrepareMsg)
    → InOrder i m
    → (kept : Map ℕ PrepareMsg) × (rest : Map ℕ PrepareMsg) × (m ≡ kept ++ rest)
      × InOrder i kept
      × InOrder (i + n) rest
      × (length kept ≡ (if ltb n (length m) then n else length m))
      × (length rest ≡ length m - n)
split-InOrder i zero m o =
    let z : i ≡ i + 0 = omega arith in
    ([], m, refl, tt, subst (λ j. InOrder j m) z o, ground arith, omega arith)
split-InOrder i (suc n) [] o = ([], [], refl, tt, tt, ground arith, omega arith)
split-InOrder i (suc n) ((j, p) ∷ m) o =
    let (kept, rest, e, a, b, size, left) = split-InOrder (suc i) n m o.2 in
    let z : suc i + n ≡ i + suc n = omega arith in
    (
      (j, p) ∷ kept,
      rest,
      ap (λ r. (j, p) ∷ r) e,
      (o.0, o.1, a),
      subst (λ k. InOrder k rest) z b,
      ground (arith, size),
      omega (arith, left),
    )

-- Of a log in order that is not longer than `TotalConsensus`, the drop from `seq` on leaves the entries
-- below `seq`, in order.
pub drop_from-InOrder :
    (node node' : Node) (seq : ℕ)
    → 0 < seq
    → seq < 2 ^ 63
    → node.total_consensus < 2 ^ 63 - 1
    → InOrder 1 node.committed_msgs
    → length node.committed_msgs ≤ node.total_consensus
    → drop_from node seq ≡ ok node'
    → let last = length node.committed_msgs in
      InOrder 1 node'.committed_msgs
      × (length node'.committed_msgs ≡ (if ltb (seq - 1) last then seq - 1 else last))
      × ((rest : Map ℕ PrepareMsg) × (node.committed_msgs ≡ node'.committed_msgs ++ rest))
unfolding drop_from
drop_from-InOrder node node' seq pos hs ht o within h =
    let top = node.total_consensus in
    let fuel = suc (suc (gap seq top)) in
    let m = node.committed_msgs in
    let (kept, rest, e, a, b, size, left) = split-InOrder 1 (seq - 1) m o in
    let z : 1 + (seq - 1) ≡ seq = omega arith in
    let short : length kept < seq = ground (arith, size) in
    let b' : InOrder seq rest = subst (λ k. InOrder k rest) z b in
    let cut =
      drop_loop-log fuel node node' seq top kept rest hs ht e a short b' (omega (arith, left)) h in
    rw cut (a, size, (rest, e))
