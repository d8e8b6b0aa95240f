-- ===== src/Base/Values.antt =====
-- A property of all the entries of a map.
use mathlib.Core.Path.{◌≡◌, sym, ◌∙◌, subst}
use mathlib.Core.Option.{some}
use mathlib.Core.Logic.{inl, inr}
use native.Mathlib.Omega.{arith}
use pa_bft.Base.Tests.{Key, if◌then◌else◌, Bool-cases}
use pa_bft.Base.Map.{Map, lookup, insert, delete, lookup-insert, lookup-delete}

module _ {K V : Type 0} ⦃e : Key K⦄ (Q : K → V → Type 0) where
  abbrev pub AllValues : Map K V → Type 0
  AllValues m = (k : K) (v : V) → lookup k m ≡ some v → Q k v

  pub AllValues-insert :
      (k : K) (v : V) (m : Map K V) → AllValues m → Q k v → AllValues (insert k v m)
  AllValues-insert k v m h q j w at =
      let found : (if e.same k j then some v else lookup j m) ≡ some w =
        sym (lookup-insert k j v m) ∙ at in
      elim (Bool-cases (e.same k j)) [
        | inl same ↦
            let kj : k ≡ j = (e.same_iff k j).0 same in
            let vw : v ≡ w = ground (arith, found, same) in subst (λ i. Q i w) kj (subst (Q k) vw q)
        | inr other ↦ h j w (ground (arith, found, other))
      ]

  pub AllValues-delete : (k : K) (m : Map K V) → AllValues m → AllValues (delete k m)
  AllValues-delete k m h j w at = h j w (ground (arith, sym (lookup-delete k j m) ∙ at))
