-- ===== src/Launch/Keys.antt =====
-- The keys of the nodes (GenPublicKeys and PublicKeyDecode of pbft/main.go).
use text.Mathlib.Text.{◌==◌ as text_beq}
use pa_bft.Base.{
  ◌<◌, ◌≡◌, ◌∙◌, inl, inr, refl, ap, String, Bool-cases, Option-cases, Option, none, some, List, [],
  ◌∷◌, length, map, arith,
}
use pa_bft.Base.Outcome.{ok, bind-returns}
use pa_bft.Node.{NodeInfo}
use pa_bft.Server.{find_node}
use pa_bft.Launch.Starting.{
  ecdsa_key, other_key, Disk, public_key_decode, public_file, gen_public_keys,
}

-- The ECDSA key in the key file of a node.
abbrev pub key_of : Disk → NodeInfo → Option String
key_of d info = elim (d.reads (public_file info.node_id)) [
  | none ↦ none
  | some text ↦ elim (d.pem text) [
    | none ↦ none
    | some block ↦ elim (d.parse_public block) [
      | none ↦ none
      | some key ↦ elim key [ ecdsa_key k ↦ some k | other_key ↦ none ]
    ]
  ]
]

abbrev pub keyed : Disk → NodeInfo → NodeInfo
keyed d info = record info { pub_key = key_of d info }

-- Each node of a table has a key file with an ECDSA key.
abbrev pub HasKeys : Disk → List NodeInfo → Type 0
HasKeys d [] = Unit {0}
HasKeys d (info ∷ rest) = ((k : String) × (key_of d info ≡ some k)) × HasKeys d rest

public_key_decode-key :
    (d : Disk) (info : NodeInfo) (text key : String)
    → d.reads (public_file info.node_id) ≡ some text
    → public_key_decode d text ≡ ok key
    → key_of d info ≡ some key
unfolding public_key_decode
public_key_decode-key d info text key e h = ground (arith, e, h)

pub gen_public_keys-returned :
    (d : Disk) (table infos : List NodeInfo)
    → gen_public_keys d table ≡ ok (some infos)
    → HasKeys d table × (infos ≡ map (keyed d) table)
unfolding gen_public_keys
gen_public_keys-returned d [] infos h = (tt, ground (arith, h))
gen_public_keys-returned d (info ∷ rest) infos h =
    elim (Option-cases (d.reads (public_file info.node_id))) [
      | inl missing ↦ (let h1 = rw (missing, gen_public_keys) at h in cc)
      | inr (text, e) ↦
          let h1 = rw (e, gen_public_keys) at h in
          let (key, h2, decoded) = bind-returns (public_key_decode d text) _ h1 in
          let (more, h3, loaded) = bind-returns (gen_public_keys d rest) _ h2 in
          let k = public_key_decode-key d info text key e decoded in
          elim (Option-cases more) [
            | inl none_left ↦ (let h4 = rw none_left at h3 in cc)
            | inr (infos', given) ↦
                let (keys, same) =
                  gen_public_keys-returned d rest infos' (loaded ∙ ap (λ m. ok m) given) in
                (((key, k), keys), ground (arith, h3, given, same, k))
          ]
    ]

pub gen_public_keys-loads :
    (d : Disk) (table : List NodeInfo)
    → HasKeys d table
    → gen_public_keys d table ≡ ok (some (map (keyed d) table))
unfolding gen_public_keys public_key_decode
gen_public_keys-loads d [] h = refl
gen_public_keys-loads d (info ∷ rest) ((k, e), more) =
    ground (arith, e, gen_public_keys-loads d rest more)

-- Keys do not change who is found.
pub find_node-keyed :
    (d : Disk) (id : String) (table : List NodeInfo)
    → find_node id (map (keyed d) table)
      ≡ elim (find_node id table) [ none ↦ none | some info ↦ some (keyed d info) ]
unfolding find_node
find_node-keyed d id [] = refl
find_node-keyed d id (info ∷ rest) = elim (Bool-cases (text_beq info.node_id id)) [
  | inl here ↦ rw here refl
  | inr past ↦ rw past (find_node-keyed d id rest)
]

pub find_node-nonempty :
    (id : String) (table : List NodeInfo) (info : NodeInfo)
    → find_node id table ≡ some info
    → 0 < length table
unfolding find_node
find_node-nonempty id [] info h = cc
find_node-nonempty id (x ∷ xs) info h = omega arith

pub length-map :
    (f : NodeInfo → NodeInfo) (table : List NodeInfo) → length (map f table) ≡ length table
length-map f [] = refl
length-map f (x ∷ xs) = omega (arith, length-map f xs)
