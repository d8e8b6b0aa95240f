-- ===== src/Node/Log.antt =====
-- The log `CommittedMsgs` and the waiting proposals of `executeMsg` (pbft/network/node.go): what the
-- two maps look like between two rounds.
use pa_bft.Base.{
  int64_key, ℕ, suc, ◌+◌, ◌≤◌, ◌<◌, ◌≡◌, refl, none, some, ltb, if◌then◌else◌, false, [], ◌∷◌, ◌++◌,
  length, arith, Bool-cases, inl, inr, ◌==◌,
}
use pa_bft.Base.Map.{Map, lookup, contains, insert, delete}
use pa_bft.Message.{PrepareMsg}
use pa_bft.Node.Execute.{Pairs}

-- The entries are numbered from `i` on without a gap, each under its own sequence number.
abbrev pub InOrder : ℕ → Map ℕ PrepareMsg → Type 0
InOrder i [] = Unit {0}
InOrder i ((k, p) ∷ m) = (k ≡ i) × (p.sequence_id ≡ i) × InOrder (suc i) m

-- Each proposal waits under its own sequence number.
abbrev pub IsKeyed : Pairs → Type 0
IsKeyed [] = Unit {0}
IsKeyed ((k, p) ∷ m) = (p.sequence_id ≡ k) × IsKeyed m

pub lookup-InOrder :
    (i k : ℕ) (m : Map ℕ PrepareMsg)
    → InOrder i m
    → i ≤ k
    → k < i + length m
    → (p : PrepareMsg) × (lookup k m ≡ some p) × (p.sequence_id ≡ k)
unfolding lookup
lookup-InOrder i k [] o h l = absurd (omega arith)
lookup-InOrder i k ((j, p) ∷ m) o h l = elim (Bool-cases (j == k)) [
  | inl here ↦ (p, ground arith, ground arith)
  | inr later ↦
      let (q, e, s) = lookup-InOrder (suc i) k m o.2 (ground arith) (omega arith) in
      (q, ground arith, s)
]

pub contains-InOrder :
    (i k : ℕ) (m : Map ℕ PrepareMsg) → InOrder i m → i + length m ≤ k → contains k m ≡ false
unfolding contains
contains-InOrder i k [] o h = refl
contains-InOrder i k ((j, p) ∷ m) o h = ground (arith, contains-InOrder (suc i) k m o.2)

pub InOrder-append :
    (i : ℕ) (m : Map ℕ PrepareMsg) (k : ℕ) (p : PrepareMsg)
    → InOrder i m
    → k ≡ i + length m
    → p.sequence_id ≡ k
    → InOrder i (m ++ (k, p) ∷ [])
InOrder-append i [] k p o e s = (omega arith, omega arith, tt)
InOrder-append i ((j, q) ∷ m) k p o e s =
    (o.0, o.1, InOrder-append (suc i) m k p o.2 (omega arith) s)

pub lookup-IsKeyed :
    (k : ℕ) (m : Pairs) (p : PrepareMsg) → IsKeyed m → lookup k m ≡ some p → p.sequence_id ≡ k
unfolding lookup
lookup-IsKeyed k [] p o h = cc
lookup-IsKeyed k ((j, q) ∷ m) p o h = ground (arith, lookup-IsKeyed k m p o.1)

pub insert-IsKeyed : (p : PrepareMsg) (m : Pairs) → IsKeyed m → IsKeyed (insert p.sequence_id p m)
unfolding insert
insert-IsKeyed p [] o = (refl, tt)
insert-IsKeyed p ((j, q) ∷ m) o = ground (arith, insert-IsKeyed p m o.1)

pub delete-IsKeyed : (k : ℕ) (m : Pairs) → IsKeyed m → IsKeyed (delete k m)
unfolding delete
delete-IsKeyed k [] o = tt
delete-IsKeyed k ((j, q) ∷ m) o = ground (arith, delete-IsKeyed k m o.1)

pub length-delete-le : (k : ℕ) (m : Pairs) → length (delete k m) ≤ length m
unfolding delete
length-delete-le k [] = omega arith
length-delete-le k ((j, q) ∷ m) = ground (arith, length-delete-le k m)

pub length-delete-lt :
    (k : ℕ) (m : Pairs) (p : PrepareMsg) → lookup k m ≡ some p → length (delete k m) < length m
unfolding delete lookup
length-delete-lt k [] p h = cc
length-delete-lt k ((j, q) ∷ m) p h = ground (arith, length-delete-le k m, length-delete-lt k m p)

-- A write at an entry, or right after the last one, keeps the log in order.
pub insert-InOrder :
    (i k : ℕ) (p : PrepareMsg) (m : Map ℕ PrepareMsg)
    → InOrder i m
    → i ≤ k
    → k ≤ i + length m
    → p.sequence_id ≡ k
    → InOrder i (insert k p m)
      × (length (insert k p m) ≡ (if ltb k (i + length m) then length m else suc (length m)))
unfolding insert
insert-InOrder i k p [] o h l s = ground arith
insert-InOrder i k p ((j, q) ∷ m) o h l s = ground (arith, insert-InOrder (suc i) k p m o.2)

pub lookup-InOrder_past :
    (i k : ℕ) (m : Map ℕ PrepareMsg) → InOrder i m → i + length m ≤ k → lookup k m ≡ none
unfolding lookup
lookup-InOrder_past i k [] o h = refl
lookup-InOrder_past i k ((j, p) ∷ m) o h = ground (arith, lookup-InOrder_past (suc i) k m o.2)
