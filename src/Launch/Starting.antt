-- ===== src/Launch/Starting.antt =====
-- main, GenNodeTable, GenPublicKeys, GenPrivateKeys and the decoding of keys (pbft/main.go). The files,
-- JSON, PEM and x509 are parameters. Keys are text.
use Prim.Native.String.{◌++◌ as text_append}
use pa_bft.Base.{
  ℕ, String, Option, none, some, List, [], ◌∷◌, length, ltb, get_elem?, if◌then◌else◌,
}
use pa_bft.Base.Outcome.{Outcome, ok, panic, deref, ◌>>=◌}
use pa_bft.Node.{NodeInfo}
use pa_bft.Server.{Server, new_server}
use pa_bft.Launch.{gen_seed_node_tables}

-- What x509.ParsePKIXPublicKey may give.
pub data PublicKey : Type 0 where
  ecdsa_key : String → PublicKey
  other_key : PublicKey

-- A file that can be read, the nodes of a list, the block of a PEM text, and the keys in a block. The
-- entries of a list are objects; each has its address.
pub record Disk : Type 0 where
  pub reads : String → Option String
  pub lists : String → Option (List NodeInfo)
  pub pem : String → Option String
  pub parse_private : String → Option String
  pub parse_public : String → Option PublicKey

-- How the program ends, if it does not crash: it prints its usage, AssertError ends it, there is no node
-- with the name, or it starts a server, with a private key that may be nil.
pub data Launched : Type 0 where
  usage exits unknown : Launched
  starts : Server → Option String → Launched

-- AssertError
abbrev pub asserting : {A : Type 0} → Option A → (A → Outcome Launched) → Outcome Launched
asserting none f = ok exits
asserting (some a) f = f a

unfoldable pub gen_node_table : Disk → String → Option (List NodeInfo)
gen_node_table d path = elim (d.reads path) [ none ↦ none | some text ↦ d.lists text ]

-- The error of the parser is dropped, and the type assertion panics where there is no ECDSA key.
unfoldable pub public_key_decode : Disk → String → Outcome String
public_key_decode d text = do
  block ← deref (d.pem text)
  elim (d.parse_public block) [
    | none ↦ panic
    | some key ↦ elim key [ ecdsa_key k ↦ ok k | other_key ↦ panic ]
  ]

-- The error of the parser is dropped, and the key is nil.
unfoldable pub private_key_decode : Disk → String → Outcome (Option String)
private_key_decode d text = do block ← deref (d.pem text); ok (d.parse_private block)

abbrev pub public_file : String → String
public_file id = text_append "keys/" (text_append id ".pub")

abbrev pub private_file : String → String
private_file id = text_append "keys/" (text_append id ".priv")

-- Every node of the table gets its key; `none` is the end of the program.
unfoldable pub gen_public_keys : Disk → List NodeInfo → Outcome (Option (List NodeInfo))
unfolding public_key_decode
gen_public_keys d [] = ok (some [])
gen_public_keys d (info ∷ rest) = elim (d.reads (public_file info.node_id)) [
  | none ↦ ok none
  | some text ↦ (do
    key ← public_key_decode d text
    more ← gen_public_keys d rest
    ok (elim more [ none ↦ none | some infos ↦ some (record info { pub_key = some key } ∷ infos) ]))
]

-- var viewID = int64(10000000000)
abbrev pub view_id : ℕ
view_id = 10000000000

-- The end of `main`, with the keys of the nodes: the private key is loaded and the server is made. The
-- seed tables share their nodes with the table, so that they have the keys.
unfoldable pub make_server : Disk → String → List NodeInfo → Outcome Launched
unfolding private_key_decode
make_server d node_id keyed = do
  seeds ← gen_seed_node_tables keyed
  asserting (d.reads (private_file node_id)) λ text. do
    key ← private_key_decode d text
    made ← new_server node_id keyed seeds view_id
    ok (elim made [ none ↦ unknown | some server ↦ starts server key ])

-- `main` from the node table on. The seed tables are made before the keys are loaded.
unfoldable pub load_keys : Disk → String → List NodeInfo → Outcome Launched
unfolding gen_public_keys make_server
load_keys d node_id table = do
  unkeyed ← gen_seed_node_tables table
  loaded ← gen_public_keys d table
  asserting loaded λ keyed. make_server d node_id keyed

unfoldable pub main : Disk → List String → Outcome Launched
unfolding gen_node_table load_keys
main d args = if ltb (length args) 2 then ok usage else (do
  node_id ← deref (get_elem? args 1)
  path ← deref (get_elem? args 3)
  asserting (gen_node_table d path) λ table. load_keys d node_id table)
