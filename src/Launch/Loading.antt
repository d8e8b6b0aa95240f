-- ===== src/Launch/Loading.antt =====
-- When the program comes up, and with what (main of pbft/main.go).
use pa_bft.Base.{
  ◌<◌, ◌≡◌, ◌∙◌, inl, inr, refl, sym, ap, String, false, Bool-cases, Option-cases, Option, none,
  some, List, [], ◌∷◌, length, ltb, get_elem?, get_elem?-ge, map, arith,
}
use pa_bft.Base.Outcome.{Outcome, ok, deref, bind-returns, bind-ok}
use pa_bft.Node.{Node, NodeInfo}
use pa_bft.Node.Primary.{update_view_id}
use pa_bft.Server.{Server, find_node, new_node, new_server}
use pa_bft.Launch.{gen_seed_node_tables}
use pa_bft.Launch.Tables.{rotations, seed_tables_from-rotations}
use pa_bft.Launch.Keys.{
  keyed, HasKeys, gen_public_keys-returned, gen_public_keys-loads, find_node-keyed,
  find_node-nonempty,
}
use pa_bft.Launch.Starting.{
  make_server, load_keys, Disk, Launched, starts, asserting, gen_node_table, private_key_decode,
  private_file, gen_public_keys, view_id, main,
}

gen_seed_node_tables-made :
    (table : List NodeInfo)
    → 0 < length table
    → gen_seed_node_tables table ≡ ok (rotations 2 0 table)
unfolding gen_seed_node_tables
gen_seed_node_tables-made table l = seed_tables_from-rotations 2 0 table (omega arith)

asserting-starts :
    {A : Type 0} (v : Option A) (f : A → Outcome Launched) (server : Server) (key : Option String)
    → asserting v f ≡ ok (starts server key)
    → (a : A) × (f a ≡ ok (starts server key)) × (v ≡ some a)
asserting-starts none f server key h = cc
asserting-starts (some a) f server key h = (a, h, refl)

new_node-made :
    (info first : NodeInfo) (rest : List NodeInfo) (seeds : List (List NodeInfo))
    → (node : Node) × (new_node info (first ∷ rest) seeds view_id ≡ ok node)
      × (node.node_table ≡ first ∷ rest)
      × (node.my_info ≡ info)
      × (node.view.primary ≡ some first)
unfolding new_node update_view_id
new_node-made info first rest seeds = (_, refl, refl, refl, refl)

-- A server of the node that is found, which sees the first node of the table as the primary.
new_server-made :
    (id : String) (table : List NodeInfo) (seeds : List (List NodeInfo)) (info : NodeInfo)
    → find_node id table ≡ some info
    → (server : Server) × (new_server id table seeds view_id ≡ ok (some server))
      × (server.node.node_table ≡ table)
      × (server.node.my_info ≡ info)
      × (server.url ≡ info.url)
      × (server.node.view.primary ≡ get_elem? table 0)
      × (new_node info table seeds view_id ≡ ok server.node)
unfolding new_server
new_server-made id [] seeds info h = absurd (omega (arith, find_node-nonempty id [] info h))
new_server-made id (first ∷ rest) seeds info h =
    let (node, made, table, mine, primary) = new_node-made info first rest seeds in
    (
      record { url = info.url; node = node },
      rw (h, new_server)
          (bind-ok _ node (λ n. ok (some (record { url = info.url; node = n }))) made refl),
      table,
      mine,
      refl,
      primary,
      made,
    )

new_server-found :
    (id : String) (table : List NodeInfo) (seeds : List (List NodeInfo)) (server : Server)
    → new_server id table seeds view_id ≡ ok (some server)
    → (info : NodeInfo) × (find_node id table ≡ some info)
unfolding new_server
new_server-found id table seeds server h = elim (Option-cases (find_node id table)) [
  | inl missing ↦ (let z = rw (missing, new_server) at h in cc)
  | inr found ↦ found
]

-- What the program needs in order to come up: a name and a list on the command line, a key file for
-- each node of the list, a readable private key file, and the name in the list.
pub record ComesUp (d : Disk) (args : List String) (node_id : String) (table : List NodeInfo)
    : Type 0 where
  pub named : get_elem? args 1 ≡ some node_id
  pub listed :
      (path : String) × (get_elem? args 3 ≡ some path) × (gen_node_table d path ≡ some table)
  pub keys : HasKeys d table
  pub own :
      (text block : String) × (d.reads (private_file node_id) ≡ some text)
      × (d.pem text ≡ some block)
  pub present : (info : NodeInfo) × (find_node node_id table ≡ some info)

-- What is known of a server that was started: it is that of a node of the table, and new.
abbrev pub Serves : Server → String → List NodeInfo → Type 0
Serves server node_id table =
    (server.node.node_table ≡ table)
    × (find_node node_id table ≡ some server.node.my_info)
    × (server.url ≡ server.node.my_info.url)
    × (server.node.view.primary ≡ get_elem? table 0)
    × (seeds : List (List NodeInfo)) × (gen_seed_node_tables table ≡ ok seeds)
    × (new_node server.node.my_info table seeds view_id ≡ ok server.node)

new_server-Serves :
    (id : String) (table : List NodeInfo) (seeds : List (List NodeInfo)) (server : Server)
    → gen_seed_node_tables table ≡ ok seeds
    → new_server id table seeds view_id ≡ ok (some server)
    → Serves server id table
new_server-Serves id table seeds server g h =
    let (info, found) = new_server-found id table seeds server h in
    let (made, e, same, mine, url, primary, new) = new_server-made id table seeds info found in
    let one : server ≡ made = cc (sym h ∙ e) in
    rw one (
      same,
      found ∙ ap (λ n. some n) (sym mine),
      url ∙ ap (λ n. n.url) (sym mine),
      primary,
      seeds,
      g,
      rw mine new,
    )

make_server-needs :
    (d : Disk) (node_id : String) (table : List NodeInfo) (server : Server) (key : Option String)
    → make_server d node_id table ≡ ok (starts server key)
    → Serves server node_id table
      × ((text : String) × (block : String) × (d.reads (private_file node_id) ≡ some text)
          × (d.pem text ≡ some block))
unfolding make_server private_key_decode
make_server-needs d node_id table server key h =
    let (seeds, h1, e1) = bind-returns (gen_seed_node_tables table) _ h in
    let (text, h2, e2) = asserting-starts (d.reads (private_file node_id)) _ server key h1 in
    let (own, h3, e3) = bind-returns (private_key_decode d text) _ h2 in
    let (made, h4, e4) = bind-returns (new_server node_id table seeds view_id) _ h3 in
    let (block, h5, e5) = bind-returns (deref (d.pem text)) _ e3 in
    elim (Option-cases made) [
      | inl nobody ↦ (let z = rw nobody at h4 in cc)
      | inr (s, e) ↦
          let same : s ≡ server = ground (arith, e, h4) in
          (
            new_server-Serves node_id table seeds server e1
                (e4 ∙ ap (λ m. ok m) (e ∙ ap (λ x. some x) same)),
            (text, block, e2, ground (arith, e5)),
          )
    ]

found-back :
    (d : Disk) (node_id : String) (table : List NodeInfo) (info : NodeInfo)
    → find_node node_id (map (keyed d) table) ≡ some info
    → (info' : NodeInfo) × (find_node node_id table ≡ some info')
found-back d node_id table info h = elim (Option-cases (find_node node_id table)) [
  | inl missing ↦ (let e = find_node-keyed d node_id table in let z = rw missing at e in cc)
  | inr found ↦ found
]

load_keys-needs :
    (d : Disk) (node_id : String) (table : List NodeInfo) (server : Server) (key : Option String)
    → load_keys d node_id table ≡ ok (starts server key)
    → HasKeys d table × (make_server d node_id (map (keyed d) table) ≡ ok (starts server key))
unfolding load_keys
load_keys-needs d node_id table server key h =
    let (unkeyed, h1, e1) = bind-returns (gen_seed_node_tables table) _ h in
    let (loaded, h2, e2) = bind-returns (gen_public_keys d table) _ h1 in
    let (infos, h3, e3) = asserting-starts loaded (make_server d node_id) server key h2 in
    let (keys, same) = gen_public_keys-returned d table infos (e2 ∙ ap (λ m. ok m) e3) in
    (keys, rw (← same) h3)

main-needs :
    (d : Disk) (args : List String) (server : Server) (key : Option String)
    → main d args ≡ ok (starts server key)
    → (node_id : String) × (table : List NodeInfo) × ComesUp d args node_id table
      × Serves server node_id (map (keyed d) table)
unfolding main
main-needs d args server key h = elim (Bool-cases (ltb (length args) 2)) [
  | inl few ↦ (let z = rw (few, main) at h in cc)
  | inr enough ↦
      let h0 = rw (enough, main) at h in
      let (node_id, h1, e1) = bind-returns (deref (get_elem? args 1)) _ h0 in
      let (path, h2, e2) = bind-returns (deref (get_elem? args 3)) _ h1 in
      let (table, h3, e3) =
        asserting-starts (gen_node_table d path) (load_keys d node_id) server key h2 in
      let (keys, h4) = load_keys-needs d node_id table server key h3 in
      let (serves, own) = make_server-needs d node_id (map (keyed d) table) server key h4 in
      (
        node_id,
        table,
        record {
          named = ground (arith, e1);
          listed = (path, ground (arith, e2), e3);
          keys = keys;
          own = own;
          present = found-back d node_id table server.node.my_info serves.1;
        },
        serves,
      )
]

make_server-starts :
    (d : Disk) (node_id text block : String) (table : List NodeInfo) (info : NodeInfo)
    → find_node node_id table ≡ some info
    → d.reads (private_file node_id) ≡ some text
    → d.pem text ≡ some block
    → (server : Server) × (key : Option String) × (make_server d node_id table
        ≡ ok (starts server key))
unfolding make_server private_key_decode
make_server-starts d node_id text block table info found read pem =
    let seeded = gen_seed_node_tables-made table (find_node-nonempty node_id table info found) in
    let (server, made, same, mine, url, primary, new) =
      new_server-made node_id table (rotations 2 0 table) info found in
    (server, d.parse_private block, ground (arith, seeded, read, pem, made))

load_keys-starts :
    (d : Disk) (args : List String) (node_id : String) (table : List NodeInfo)
    → ComesUp d args node_id table
    → (server : Server) × (key : Option String) × (load_keys d node_id table
        ≡ ok (starts server key))
unfolding load_keys
load_keys-starts d args node_id table c =
    let (text, block, read, pem) = c.own in
    let (info, found) = c.present in
    let keyed_found : find_node node_id (map (keyed d) table) ≡ some (keyed d info) =
      ground (arith, find_node-keyed d node_id table, found) in
    let (server, key, made) =
      make_server-starts d node_id text block (map (keyed d) table) (keyed d info) keyed_found read
        pem in
    let loaded = gen_public_keys-loads d table c.keys in
    let seeded = gen_seed_node_tables-made table (find_node-nonempty node_id table info found) in
    (server, key, rw (seeded, load_keys) (rw loaded made))

main-starts :
    (d : Disk) (args : List String) (node_id : String) (table : List NodeInfo)
    → ComesUp d args node_id table
    → (server : Server) × (key : Option String) × (main d args ≡ ok (starts server key))
unfolding main
main-starts d args node_id table c =
    let (path, at, listed) = c.listed in
    let (server, key, made) = load_keys-starts d args node_id table c in
    let enough : ltb (length args) 2 ≡ false = ground (arith, c.named, get_elem?-ge args 1) in
    let named = c.named in (server, key, rw (enough, main) (rw named (rw at (rw listed made))))

-- The program starts a server exactly when it has what it needs: a name and a list of nodes on the
-- command line, a key file with an ECDSA key for each node of the list, a private key file with a PEM
-- block, and the name in the list. The server is then that of the first node with the name; its table is
-- the list, with the key of each node, its primary is the first node of the list, and its node is a new
-- one, as NewNode makes it.
pub main-starts_iff :
    (d : Disk) (args : List String)
    → ((server : Server) (key : Option String)
        → main d args ≡ ok (starts server key)
        → (node_id : String) × (table : List NodeInfo) × ComesUp d args node_id table
          × Serves server node_id (map (keyed d) table))
      × ((node_id : String) (table : List NodeInfo)
          → ComesUp d args node_id table
          → (server : Server) × (key : Option String) × (main d args ≡ ok (starts server key)))
main-starts_iff d args = (main-needs d args, main-starts d args)
