-- ===== src/Launch.antt =====
-- pbft/main.go, GenSeedNodeTables, and pbft/gen_nodelist.go: the tables of a node, and the files that
-- list the nodes; Launch.Listing has the main of the latter. A decoded configuration is an argument, and
-- the rows of a node file stand for their text.
pub mod Tables
pub mod NodeList
pub mod Listing
pub mod Writing
pub mod Starting
pub mod Loading
pub mod Keys
use Prim.Native.String.{◌++◌ as text_append}
use pa_bft.Base.{
  ℕ, zero, suc, ◌+◌, ◌≤◌, String, Option, none, some, Bool, true, false, not, ◌&&◌, List, [], ◌∷◌,
  ◌++◌, length, leb, ◌==◌, get_elem?, map, if◌then◌else◌,
}
use pa_bft.Base.Outcome.{Outcome, ok, panic, deref, ◌>>=◌}
use pa_bft.Node.{NodeInfo}

abbrev pub take {ℓ} : {A : Type ℓ} → ℕ → List A → List A
take zero xs = []
take (suc n) [] = []
take (suc n) (x ∷ xs) = x ∷ take n xs

abbrev pub drop {ℓ} : {A : Type ℓ} → ℕ → List A → List A
drop zero xs = xs
drop (suc n) [] = []
drop (suc n) (x ∷ xs) = drop n xs

-- One round of the loop for each number from `i` on. The bounds of a slice are checked; `append` copies,
-- or writes behind the end of the table, where nothing looks.
unfoldable pub seed_tables_from : ℕ → ℕ → List NodeInfo → Outcome (List (List NodeInfo))
seed_tables_from zero i table = ok []
seed_tables_from (suc rounds) i table =
    let rest = seed_tables_from rounds (suc i) table in
    if leb i (length table)
    then (do tables ← rest; ok ((drop i table ++ take i table) ∷ tables))
    else panic

-- randomNum := 2
unfoldable pub gen_seed_node_tables : List NodeInfo → Outcome (List (List NodeInfo))
unfolding seed_tables_from
gen_seed_node_tables table = seed_tables_from 2 0 table

-- The structures that a configuration is decoded into; a count of nodes is not negative.
pub record InstanceInfo : Type 0 where
  pub total_node_num : ℕ
  pub per_instance_num : List ℕ

pub record Configuration : Type 0 where
  pub instance_ip_list : List String
  pub instance_infos : List InstanceInfo

unfoldable pub get_instance_info : Configuration → List ℕ
get_instance_info config = map (λ (info : InstanceInfo). info.total_node_num) config.instance_infos

-- One node of a file, and whether a comma follows.
pub record Row : Type 0 where
  pub number : ℕ
  pub ip : String
  pub port : ℕ
  pub comma : Bool

-- The rows stand between a line "[" and a line "]".
pub record NodeFile : Type 0 where
  pub path : String
  pub rows : List Row

-- The counts of the first entry with the total; none is an empty slice.
unfoldable pub current_config : ℕ → List InstanceInfo → List ℕ
current_config total [] = []
current_config total (info ∷ infos) =
    if info.total_node_num == total then info.per_instance_num else current_config total infos

-- The inner loop: the number of the last row and the comma are carried on.
unfoldable pub add_rows : ℕ → String → ℕ → ℕ → Bool → ℕ × Bool × List Row
add_rows total ip zero number comma = (number, comma, [])
add_rows total ip (suc rest) number comma =
    let number' = suc number in
    let comma' = if number' == total then false else comma in
    let (last, carried, rows) = add_rows total ip rest number' comma' in
    (
      last,
      carried,
      record { number = number'; ip = ip; port = 1110 + number'; comma = comma' } ∷ rows,
    )

-- The outer loop, from instance `i` on.
unfoldable pub add_instances : ℕ → List String → List ℕ → ℕ → ℕ → Bool → Outcome (List Row)
unfolding add_rows
add_instances total ips [] i number comma = ok []
add_instances total ips (count ∷ counts) i number comma = do
  ip ← deref (get_elem? ips i)
  let (last, carried, rows) = add_rows total ip count number comma
  more ← add_instances total ips counts (suc i) last carried
  ok (rows ++ more)

-- `show` is strconv.Itoa, and `creates` tells whether os.Create can create the file at a path. Its error is
-- dropped: the loops run in any case, and what they print to a nil file is lost.
unfoldable pub generate_node_file :
    (String → Bool) → (ℕ → String) → Configuration → ℕ → String → Outcome (Option NodeFile)
unfolding current_config add_instances
generate_node_file creates show config total mode = do
  rows ←
      add_instances total config.instance_ip_list (current_config total config.instance_infos) 0 0
        true
  let path =
      text_append "./nodeList/nodeNum"
        (text_append (show total) (text_append "/nodeList_" (text_append mode ".json")))
  ok (if creates path then some (record { path = path; rows = rows }) else none)
