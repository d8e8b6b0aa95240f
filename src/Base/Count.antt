-- ===== src/Base/Count.antt =====
-- Counting the entries of a list that pass a test, and the overlap of two selections.
use Prim.Native.Nat.{ℕ, ◌+◌, ◌≤◌}
use mathlib.Core.Bool.{Bool, ◌&&◌}
use mathlib.Core.List.{List, [], ◌∷◌}
use native.Mathlib.Omega.{arith}
use pa_bft.Base.Tests.{if◌then◌else◌}
use pa_bft.Base.Lists.{length}

module _ {ℓ} {A : Type ℓ} where
  abbrev pub count_if : (A → Bool) → List A → ℕ
  count_if p [] = 0
  count_if p (x ∷ xs) = (if p x then 1 else 0) + count_if p xs

  pub count_if-le-length : (p : A → Bool) (xs : List A) → count_if p xs ≤ length xs
  count_if-le-length p [] = omega arith
  count_if-le-length p (x ∷ xs) = ground (arith, count_if-le-length p xs)

  -- Two selections from one list overlap in what their sizes exceed it by.
  pub count_if-overlap :
      (p q : A → Bool) (xs : List A)
      → count_if p xs + count_if q xs ≤ length xs + count_if (λ x. p x && q x) xs
  count_if-overlap p q [] = omega arith
  count_if-overlap p q (x ∷ xs) = ground (arith, count_if-overlap p q xs)
