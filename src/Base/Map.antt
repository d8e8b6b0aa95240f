-- ===== src/Base/Map.antt =====
-- Go's `map[K]V` as an association list in the order of first insertion. A key stands in it once
-- (`Keys.IsDistinct`), so its length is `len(m)`.
use mathlib.Core.Path.{◌≡◌, refl}
use mathlib.Core.Bool.{Bool, true, false}
use mathlib.Core.List.{List, [], ◌∷◌, ◌++◌}
use mathlib.Core.Option.{Option, none, some}
use native.Mathlib.Omega.{arith}
use Prim.Native.Nat.{suc}
use pa_bft.Base.Tests.{Key, if◌then◌else◌}
use pa_bft.Base.Lists.{length}

abbrev pub Map : Type 0 → Type 0 → Type 0
Map K V = List (K × V)

module _ {K V : Type 0} ⦃e : Key K⦄ where
  unfoldable pub contains : K → Map K V → Bool
  contains k [] = false
  contains k (entry ∷ m) = if e.same entry.0 k then true else contains k m

  -- m[k], with `none` for a missing key.
  unfoldable pub lookup : K → Map K V → Option V
  lookup k [] = none
  lookup k (entry ∷ m) = if e.same entry.0 k then some entry.1 else lookup k m

  -- delete(m, k)
  unfoldable pub delete : K → Map K V → Map K V
  delete k [] = []
  delete k (entry ∷ m) = if e.same entry.0 k then delete k m else entry ∷ delete k m

  -- m[k] = v
  unfoldable pub insert : K → V → Map K V → Map K V
  insert k v [] = (k, v) ∷ []
  insert k v (entry ∷ m) = if e.same entry.0 k then (k, v) ∷ m else entry ∷ insert k v m

  pub lookup-delete :
      (k j : K) (m : Map K V) → lookup j (delete k m) ≡ (if e.same k j then none else lookup j m)
  unfolding lookup delete
  lookup-delete k j [] = ground arith
  lookup-delete k j ((i, w) ∷ m) =
      ground (arith, lookup-delete k j m, e.same_iff i j, e.same_iff i k, e.same_iff k j)

  pub length-insert :
      (k : K) (v : V) (m : Map K V)
      → length (insert k v m) ≡ (if contains k m then length m else suc (length m))
  unfolding insert contains
  length-insert k v [] = refl
  length-insert k v (entry ∷ m) = ground (arith, length-insert k v m)

  pub contains-insert :
      (k j : K) (v : V) (m : Map K V)
      → contains j (insert k v m) ≡ (if e.same k j then true else contains j m)
  unfolding contains insert
  contains-insert k j v [] = refl
  contains-insert k j v ((i, w) ∷ m) =
      ground (arith, contains-insert k j v m, e.same_iff i j, e.same_iff i k, e.same_iff k j)

  -- A new key goes to the end.
  pub insert_new :
      (k : K) (v : V) (m : Map K V) → contains k m ≡ false → insert k v m ≡ m ++ (k, v) ∷ []
  unfolding contains insert
  insert_new k v [] h = refl
  insert_new k v (entry ∷ m) h = ground (arith, insert_new k v m)

  pub lookup-insert :
      (k j : K) (v : V) (m : Map K V)
      → lookup j (insert k v m) ≡ (if e.same k j then some v else lookup j m)
  unfolding lookup insert
  lookup-insert k j v [] = ground arith
  lookup-insert k j v ((i, w) ∷ m) =
      ground (arith, lookup-insert k j v m, e.same_iff i j, e.same_iff i k, e.same_iff k j)
