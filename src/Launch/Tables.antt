-- ===== src/Launch/Tables.antt =====
-- GenSeedNodeTables (pbft/main.go), and the node that takes one of its tables.
use pa_bft.Base.{
  ℕ, zero, suc, ◌+◌, ◌-◌, ◌≤◌, ◌<◌, ◌≡◌, ◌∙◌, refl, ap, some, List, [], ◌∷◌, ◌++◌, length, ltb,
  get_elem?, if◌then◌else◌, arith, Bool-cases, inl, inr,
}
use pa_bft.Base.Outcome.{ok, deref, bind-ok}
use pa_bft.Node.{Node, NodeInfo}
use pa_bft.Node.Primary.{set_new_seed_list, get_primary_info_by_id}
use pa_bft.Launch.{take, drop, seed_tables_from, gen_seed_node_tables}

-- The table rotated by `i`.
abbrev pub rotated {ℓ} : {A : Type ℓ} → ℕ → List A → List A
rotated i xs = drop i xs ++ take i xs

-- Rotations from `i` on.
abbrev pub rotations : ℕ → ℕ → List NodeInfo → List (List NodeInfo)
rotations zero i table = []
rotations (suc rounds) i table = rotated i table ∷ rotations rounds (suc i) table

pub seed_tables_from-rotations :
    (rounds i : ℕ) (table : List NodeInfo)
    → rounds + i ≤ suc (length table)
    → seed_tables_from rounds i table ≡ ok (rotations rounds i table)
unfolding seed_tables_from
seed_tables_from-rotations zero i table l = refl
seed_tables_from-rotations (suc rounds) i table l =
    let more = seed_tables_from-rotations rounds (suc i) table (omega arith) in ground (arith, more)

get_elem?-drop : (xs : List NodeInfo) (i j : ℕ) → get_elem? (drop i xs) j ≡ get_elem? xs (i + j)
get_elem?-drop xs zero j = let z : j ≡ 0 + j = omega arith in ap (get_elem? xs) z
get_elem?-drop [] (suc i) j = refl
get_elem?-drop (x ∷ xs) (suc i) j =
    let z : suc (i + j) ≡ suc i + j = omega arith in
    get_elem?-drop xs i j ∙ ap (get_elem? (x ∷ xs)) z

get_elem?-take : (xs : List NodeInfo) (i j : ℕ) → j < i → get_elem? (take i xs) j ≡ get_elem? xs j
get_elem?-take xs zero j l = absurd (omega arith)
get_elem?-take [] (suc i) j l = refl
get_elem?-take (x ∷ xs) (suc i) zero l = refl
get_elem?-take (x ∷ xs) (suc i) (suc j) l = get_elem?-take xs i j (omega arith)

length-drop : (xs : List NodeInfo) (i : ℕ) → length (drop i xs) ≡ length xs - i
length-drop xs zero = omega arith
length-drop [] (suc i) = omega arith
length-drop (x ∷ xs) (suc i) = omega (arith, length-drop xs i)

get_elem?-append-lt :
    (xs ys : List NodeInfo) (j : ℕ) → j < length xs → get_elem? (xs ++ ys) j ≡ get_elem? xs j
get_elem?-append-lt [] ys j l = elim l [ ]
get_elem?-append-lt (x ∷ xs) ys zero l = refl
get_elem?-append-lt (x ∷ xs) ys (suc j) l = get_elem?-append-lt xs ys j (omega arith)

get_elem?-append-ge :
    (xs ys : List NodeInfo) (j : ℕ) → get_elem? (xs ++ ys) (length xs + j) ≡ get_elem? ys j
get_elem?-append-ge [] ys j = let z : 0 + j ≡ j = omega arith in ap (get_elem? ys) z
get_elem?-append-ge (x ∷ xs) ys j =
    let z : suc (length xs) + j ≡ suc (length xs + j) = omega arith in
    ap (get_elem? (x ∷ (xs ++ ys))) z ∙ get_elem?-append-ge xs ys j

-- The place of `j` in a table that is rotated by `i`.
abbrev pub wrap : ℕ → ℕ → ℕ → ℕ
wrap n i j = if ltb (i + j) n then i + j else i + j - n

get_elem?-rotated :
    (xs : List NodeInfo) (i j : ℕ)
    → i ≤ length xs
    → j < length xs
    → get_elem? (rotated i xs) j ≡ get_elem? xs (wrap (length xs) i j)
get_elem?-rotated xs i j l u =
    let n = length xs in
    let rest = length-drop xs i in
    elim (Bool-cases (ltb (i + j) n)) [
      | inl here ↦
          get_elem?-append-lt (drop i xs) (take i xs) j (ground (arith, here, rest))
          ∙ get_elem?-drop xs i j
          ∙ (let z : i + j ≡ wrap n i j = ground (arith, here) in ap (get_elem? xs) z)
      | inr past ↦
          let k = i + j - n in
          (let z : j ≡ length (drop i xs) + k = ground (arith, past, rest) in
            ap (get_elem? (rotated i xs)) z)
          ∙ get_elem?-append-ge (drop i xs) (take i xs) k
          ∙ get_elem?-take xs i k (ground (arith, past))
          ∙ (let z : k ≡ wrap n i j = ground (arith, past) in ap (get_elem? xs) z)
    ]

seed_table :
    (table : List NodeInfo) (seed : ℕ)
    → seed ≤ 1
    → get_elem? (rotations 2 0 table) seed ≡ some (rotated seed table)
seed_table table zero l = refl
seed_table table (suc zero) l = refl
seed_table table (suc (suc seed)) l = absurd (omega arith)

-- The tables that `GenSeedNodeTables` makes of a table with a node or more are what `setNewSeedList`
-- needs: both return, for the seeds 0 and 1, and afterwards the primary of view `j` is the node of the
-- first table that stands `seed` places on, around its end.
pub gen_seed_node_tables-rotates :
    (table : List NodeInfo) (node : Node) (seed j : ℕ)
    → seed ≤ 1
    → j < length table
    → (tables : List (List NodeInfo)) × (gen_seed_node_tables table ≡ ok tables)
      × (node' : Node) × (set_new_seed_list (record node { seed_node_tables = tables }) seed
          ≡ ok node')
      × (get_primary_info_by_id node' j
          ≡ get_primary_info_by_id
              (record node { node_table = table })
              (wrap (length table) seed j))
unfolding gen_seed_node_tables set_new_seed_list get_primary_info_by_id
gen_seed_node_tables-rotates table node seed j l u =
    let tables = rotations 2 0 table in
    (
      tables,
      seed_tables_from-rotations 2 0 table (omega arith),
      record node { seed_node_tables = tables; node_table = rotated seed table },
      bind-ok _ _ _ (ap deref (seed_table table seed l)) refl,
      ap deref (get_elem?-rotated table seed j (omega arith) u),
    )
