-- ===== src/Tests/Launching.antt =====
-- Tables and node files.
use pa_bft.Base.{true, refl, String, Option, some, map, ◌≡◌, List, [], ◌∷◌, arith}
use pa_bft.Base.Outcome.{ok}
use pa_bft.Node.{Node, NodeInfo}
use pa_bft.Node.Primary.{set_new_seed_list, get_primary_info_by_id}
use pa_bft.Launch.{Configuration, NodeFile, gen_seed_node_tables, current_config, get_instance_info}
use pa_bft.Launch.Tables.{wrap, gen_seed_node_tables-rotates}
use pa_bft.Server.{Server, find_node}
use pa_bft.Launch.Listing.{main as write_lists, writes}
use pa_bft.Launch.Writing.{AreLists, main-writes_lists}
use pa_bft.Launch.Starting.{Disk, ecdsa_key, starts, gen_node_table, main}
use pa_bft.Launch.Keys.{keyed, HasKeys}
use pa_bft.Launch.Loading.{ComesUp, Serves, main-starts_iff}
use pa_bft.Tests.Data.{started, ten_nodes, info}

gen_seed_node_tables-rotates_example :
    (tables : List (List NodeInfo)) × (gen_seed_node_tables ten_nodes ≡ ok tables)
    × (node' : Node) × (set_new_seed_list (record started { seed_node_tables = tables }) 1
        ≡ ok node')
    × (get_primary_info_by_id node' 9
        ≡ get_primary_info_by_id (record started { node_table = ten_nodes }) (wrap 10 1 9))
gen_seed_node_tables-rotates_example =
    gen_seed_node_tables-rotates ten_nodes started 1 9 (omega arith) (omega arith)

-- Two instances with two nodes and one, and a total of four.
abbrev short_of_one : Configuration
short_of_one = record {
  instance_ip_list = "a" ∷ "b" ∷ [];
  instance_infos = record { total_node_num = 4; per_instance_num = 2 ∷ 1 ∷ [] } ∷ [];
}

main-writes_lists_example :
    (files : List NodeFile) × (write_lists
        (λ path. true)
        (λ n. "4")
        (λ path. some short_of_one)
        ("gen_nodelist" ∷ "aws" ∷ [])
      ≡ ok (writes files))
    × AreLists (λ path. true) (λ n. "4") short_of_one "aws" (4 ∷ []) files
unfolding current_config get_instance_info
main-writes_lists_example =
    main-writes_lists (λ path. true) (λ n. "4") (λ path. some short_of_one) short_of_one
      "gen_nodelist" "aws" [] refl ((omega arith, omega arith), tt)

-- Every file holds the key or the list "k"; the list has ten nodes.
abbrev disk : Disk
disk = record {
  reads = λ path. some "k";
  lists = λ text. some ten_nodes;
  pem = λ text. some text;
  parse_private = λ block. some block;
  parse_public = λ block. some (ecdsa_key block);
}

abbrev command : List String
command = "pbft" ∷ "Node2" ∷ "10" ∷ "node.list" ∷ []

main-starts_iff_example :
    ((server : Server) (key : Option String)
      → main disk command ≡ ok (starts server key)
      → (node_id : String) × (table : List NodeInfo) × ComesUp disk command node_id table
        × Serves server node_id (map (keyed disk) table))
    × ((node_id : String) (table : List NodeInfo)
        → ComesUp disk command node_id table
        → (server : Server) × (key : Option String) × (main disk command ≡ ok (starts server key)))
main-starts_iff_example = main-starts_iff disk command

HasKeys-disk : (table : List NodeInfo) → HasKeys disk table
HasKeys-disk [] = tt
HasKeys-disk (info ∷ rest) = (("k", refl), HasKeys-disk rest)

-- With these files the program does come up.
comes_up : ComesUp disk command "Node2" ten_nodes
unfolding gen_node_table find_node
comes_up = record {
  named = refl;
  listed = ("node.list", refl, refl);
  keys = HasKeys-disk ten_nodes;
  own = ("k", "k", refl, refl);
  present = (info "Node2" 2, refl);
}

node2_starts :
    (server : Server) × (key : Option String) × (main disk command ≡ ok (starts server key))
node2_starts = (main-starts_iff disk command).1 "Node2" ten_nodes comes_up
