-- ===== src/Base/Copy.antt =====
-- A new map filled with the entries of another, in a loop over them.
use mathlib.Core.Path.{◌≡◌, sym, ◌∙◌}
use mathlib.Core.List.{[], ◌∷◌, ◌++◌, append-nil, append_assoc}
use pa_bft.Base.Tests.{Key}
use pa_bft.Base.Map.{Map, insert, insert_new}
use pa_bft.Base.Keys.{IsDistinct, IsDistinct-middle}

module _ {K V : Type 0} ⦃e : Key K⦄ where
  copy_into : Map K V → Map K V → Map K V
  copy_into copied [] = copied
  copy_into copied ((k, v) ∷ rest) = copy_into (insert k v copied) rest

  unfoldable pub copy : Map K V → Map K V
  unfolding copy_into
  copy m = copy_into [] m

  copy_into-append : (m rest : Map K V) → IsDistinct (m ++ rest) → copy_into m rest ≡ m ++ rest
  unfolding copy_into
  copy_into-append m [] d = sym (append-nil m)
  copy_into-append m ((k, v) ∷ rest) d =
      let shift = append_assoc m ((k, v) ∷ []) rest in
      rw (insert_new k v m (IsDistinct-middle k v m rest d))
        (copy_into-append (m ++ (k, v) ∷ []) rest (rw shift d) ∙ shift)

  -- Where the keys are distinct the copy is the same map, in the same order.
  pub copy_self : (m : Map K V) → IsDistinct m → copy m ≡ m
  unfolding copy
  copy_self m d = copy_into-append [] m d
