-- ===== src/Base/Keys.antt =====
-- The keys of a map are distinct, and inserting keeps them so.
use mathlib.Core.Path.{◌≡◌, refl}
use mathlib.Core.Bool.{Bool, true, false}
use mathlib.Core.List.{[], ◌∷◌, ◌++◌}
use native.Mathlib.Omega.{arith}
use Prim.Native.Nat.{◌+◌}
use pa_bft.Base.Tests.{Key, if◌then◌else◌}
use pa_bft.Base.Count.{count_if}
use pa_bft.Base.Map.{Map, contains, insert, contains-insert}

module _ {K V : Type 0} ⦃e : Key K⦄ where
  abbrev pub IsDistinct : Map K V → Type 0
  IsDistinct [] = Unit {0}
  IsDistinct ((k, v) ∷ m) = (contains k m ≡ false) × IsDistinct m

  pub insert-IsDistinct : (k : K) (v : V) (m : Map K V) → IsDistinct m → IsDistinct (insert k v m)
  unfolding insert contains
  insert-IsDistinct k v [] d = (refl, tt)
  insert-IsDistinct k v ((j, w) ∷ m) d =
      ground
        (arith, insert-IsDistinct k v m, contains-insert k j v m, e.same_iff j k, e.same_iff k j)

  -- A new key adds one entry to every count.
  pub count_if-insert_new :
      (p : K × V → Bool) (k : K) (v : V) (m : Map K V)
      → contains k m ≡ false
      → count_if p (insert k v m) ≡ count_if p m + (if p (k, v) then 1 else 0)
  unfolding insert contains
  count_if-insert_new p k v [] h = ground arith
  count_if-insert_new p k v ((j, w) ∷ m) h = ground (arith, count_if-insert_new p k v m)

  contains-middle : (k : K) (v : V) (m rest : Map K V) → contains k (m ++ (k, v) ∷ rest) ≡ true
  unfolding contains
  contains-middle k v [] rest = ground (arith, e.same_iff k k)
  contains-middle k v ((j, w) ∷ m) rest = ground (arith, contains-middle k v m rest)

  -- Of distinct keys, none stands twice.
  pub IsDistinct-middle :
      (k : K) (v : V) (m rest : Map K V) → IsDistinct (m ++ (k, v) ∷ rest) → contains k m ≡ false
  unfolding contains
  IsDistinct-middle k v [] rest d = refl
  IsDistinct-middle k v ((j, w) ∷ m) rest d =
      ground (arith, IsDistinct-middle k v m rest d.1, contains-middle k v m rest, e.same_iff j k)
