-- ===== src/Base/Overlap.antt =====
-- Maps against the list of the keys that may stand in them.
use Prim.Native.Nat.{◌+◌, ◌≤◌}
use mathlib.Core.Path.{◌≡◌, refl, ◌∙◌}
use mathlib.Core.Bool.{Bool, true, false}
use mathlib.Core.List.{List, [], ◌∷◌}
use mathlib.Core.Logic.{inl, inr}
use native.Mathlib.Omega.{arith}
use pa_bft.Base.Tests.{Key, Bool-cases, if◌then◌else◌}
use pa_bft.Base.Count.{count_if}
use pa_bft.Base.Map.{Map, contains}
use pa_bft.Base.Keys.{IsDistinct}

module _ {ℓ} {A : Type ℓ} where
  pub count_if_mono :
      (p q : A → Bool) (xs : List A)
      → ((x : A) → p x ≡ true → q x ≡ true)
      → count_if p xs ≤ count_if q xs
  count_if_mono p q [] h = omega arith
  count_if_mono p q (x ∷ xs) h = ground (arith, h x, count_if_mono p q xs h)

module _ {K : Type 0} ⦃e : Key K⦄ where
  unfoldable pub elem : K → List K → Bool
  elem k [] = false
  elem k (j ∷ ks) = if e.same j k then true else elem k ks

  -- A test that is stricter than another, and fails at a listed key where the other passes.
  count_if-strict :
      (p q : K → Bool) (k : K) (ks : List K)
      → ((x : K) → p x ≡ true → q x ≡ true)
      → p k ≡ false
      → q k ≡ true
      → elem k ks ≡ true
      → count_if p ks + 1 ≤ count_if q ks
  unfolding elem
  count_if-strict p q k [] h pk qk i = ground arith
  count_if-strict p q k (j ∷ ks) h pk qk i =
      ground (arith, h j, e.same_iff j k, count_if_mono p q ks h, count_if-strict p q k ks h pk qk)

module _ {K V : Type 0} ⦃e : Key K⦄ where
  -- The test of a map's entry at a key.
  unfoldable pub holds_at : (V → Bool) → Map K V → K → Bool
  holds_at p [] k = false
  holds_at p ((j, v) ∷ m) k = if e.same j k then p v else holds_at p m k

  holds_at-contains :
      (p : V → Bool) (m : Map K V) (k : K) → contains k m ≡ false → holds_at p m k ≡ false
  unfolding contains holds_at
  holds_at-contains p [] k h = refl
  holds_at-contains p ((j, v) ∷ m) k h = ground (arith, holds_at-contains p m k)

  abbrev pub AllIn : List K → Map K V → Type 0
  AllIn ks [] = Unit {0}
  AllIn ks ((k, v) ∷ m) = (elem k ks ≡ true) × AllIn ks m

  holds_at-cons :
      (p : V → Bool) (k : K) (v : V) (m : Map K V)
      → contains k m ≡ false
      → (x : K) → holds_at p m x ≡ true
      → holds_at p ((k, v) ∷ m) x ≡ true
  unfolding holds_at
  holds_at-cons p k v m d x h = ground (arith, e.same_iff k x, holds_at-contains p m k)

  holds_at-head : (p : V → Bool) (k : K) (v : V) (m : Map K V) → holds_at p ((k, v) ∷ m) k ≡ p v
  unfolding holds_at
  holds_at-head p k v m = ground (arith, e.same_iff k k)

  -- The entries of a map that pass a test, counted over the list of the possible keys.
  pub count_if-holds_at :
      (p : V → Bool) (ks : List K) (m : Map K V)
      → IsDistinct m
      → AllIn ks m
      → count_if (λ (x : K × V). p x.1) m ≤ count_if (holds_at p m) ks
  count_if-holds_at p ks [] d a = omega arith
  count_if-holds_at p ks ((k, v) ∷ m) d a =
      let q = holds_at p ((k, v) ∷ m) in
      let rest = count_if-holds_at p ks m d.1 a.1 in
      let weaker = holds_at-cons p k v m d.0 in
      elim (Bool-cases (p v)) [
        | inl pass ↦ rw pass (
            omega (
              arith,
              rest,
              count_if-strict (holds_at p m) q k ks weaker (holds_at-contains p m k d.0)
                  (holds_at-head p k v m ∙ pass) a.0,
            ))
        | inr fail ↦ rw fail (omega (arith, rest, count_if_mono (holds_at p m) q ks weaker))
      ]
