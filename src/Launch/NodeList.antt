-- ===== src/Launch/NodeList.antt =====
-- GenerateNodeFile (pbft/gen_nodelist.go).
use Prim.Native.String.{◌++◌ as text_append}
use pa_bft.Base.{
  none, ℕ, zero, suc, ◌+◌, ◌-◌, ◌≤◌, ◌≡◌, ◌∙◌, ◌⊎◌, ◌↔◌, refl, sym, ap, String, some, Bool, true,
  false, not, ◌&&◌, ◌||◌, List, [], ◌∷◌, ◌++◌, length, length-append, leb, ltb, ◌==◌, get_elem?,
  get_elem?-lt, if◌then◌else◌, arith,
}
use pa_bft.Base.Outcome.{ok, bind-ok}
use pa_bft.Launch.{
  drop, Row, NodeFile, Configuration, current_config, add_rows, add_instances, generate_node_file,
}

abbrev pub copies : ℕ → String → List String
copies zero ip = []
copies (suc n) ip = ip ∷ copies n ip

-- The address of each node in turn.
abbrev pub addresses : List String → List ℕ → List String
addresses ips [] = []
addresses [] (count ∷ counts) = []
addresses (ip ∷ ips) (count ∷ counts) = copies count ip ++ addresses ips counts

-- The rows as they should be: numbered, each with its port, and with a comma before number `total`.
abbrev pub numbered : ℕ → ℕ → List String → List Row
numbered total number [] = []
numbered total number (ip ∷ ips) =
    record { number = number; ip = ip; port = 1110 + number; comma = ltb number total }
    ∷ numbered total (suc number) ips

abbrev pub sum : List ℕ → ℕ
sum [] = 0
sum (n ∷ ns) = n + sum ns

-- A comma stands between any two rows, and none after the last.
abbrev pub separated : List Row → Bool
separated [] = true
separated (row ∷ rows) = elim rows [
  | [] ↦ not row.comma
  | next ∷ rest ↦ row.comma && separated rows
]

length-copies : (n : ℕ) (ip : String) → length (copies n ip) ≡ n
length-copies zero ip = refl
length-copies (suc n) ip = omega (arith, length-copies n ip)

length-addresses :
    (ips : List String) (counts : List ℕ)
    → length counts ≤ length ips
    → length (addresses ips counts) ≡ sum counts
length-addresses ips [] l = refl
length-addresses [] (count ∷ counts) l = elim l [ ]
length-addresses (ip ∷ ips) (count ∷ counts) l = omega (
  arith,
  length-append (copies count ip) (addresses ips counts),
  length-copies count ip,
  length-addresses ips counts,
)

abbrev row : ℕ → ℕ → String → Row
row total number ip = record {
  number = number;
  ip = ip;
  port = 1110 + number;
  comma = ltb number total;
}

add_rows-numbered :
    (total count number : ℕ) (ip : String)
    → 1 ≤ total
    → let r = add_rows total ip count number (ltb number total) in
      (r.0 ≡ count + number)
      × (r.1 ≡ ltb (count + number) total)
      × (r.2 ≡ numbered total (suc number) (copies count ip))
unfolding add_rows
add_rows-numbered total zero number ip l =
    let z : number ≡ 0 + number = omega arith in (z, ap (λ n. ltb n total) z, refl)
add_rows-numbered total (suc count) number ip l =
    let comma : (if suc number == total then false else ltb number total) ≡ ltb (suc number) total =
      ground arith in
    let z : count + suc number ≡ suc count + number = omega arith in
    let (last, carried, rows) = add_rows-numbered total count (suc number) ip l in
    rw (add_rows, comma)
      (last ∙ z, carried ∙ ap (λ n. ltb n total) z, ap (λ r. row total (suc number) ip ∷ r) rows)

numbered-append :
    (total number : ℕ) (xs ys : List String)
    → numbered total number (xs ++ ys)
      ≡ numbered total number xs ++ numbered total (length xs + number) ys
numbered-append total number [] ys =
    let z : number ≡ 0 + number = omega arith in ap (λ n. numbered total n ys) z
numbered-append total number (x ∷ xs) ys =
    let z : length xs + suc number ≡ suc (length xs) + number = omega arith in
    ap (λ r. row total number x ∷ r)
      (numbered-append total (suc number) xs ys
        ∙ ap (λ n. numbered total (suc number) xs ++ numbered total n ys) z)

drop-get_elem? :
    (ips : List String) (i : ℕ) (ip : String)
    → get_elem? ips i ≡ some ip
    → drop i ips ≡ ip ∷ drop (suc i) ips
drop-get_elem? [] i ip e = cc
drop-get_elem? (x ∷ ips) zero ip e = (let same : x ≡ ip = ground arith in rw same refl)
drop-get_elem? (x ∷ ips) (suc i) ip e = drop-get_elem? ips i ip e

add_instances-numbered :
    (total : ℕ) (ips : List String) (counts : List ℕ) (i number : ℕ)
    → 1 ≤ total
    → i + length counts ≤ length ips
    → add_instances total ips counts i number (ltb number total)
      ≡ ok (numbered total (suc number) (addresses (drop i ips) counts))
unfolding add_instances
add_instances-numbered total ips [] i number l enough = refl
add_instances-numbered total ips (count ∷ counts) i number l enough =
    let (ip, at) = get_elem?-lt ips i (omega arith) in
    let (last, carried, rows) = add_rows-numbered total count number ip l in
    let more = add_instances-numbered total ips counts (suc i) (count + number) l (omega arith) in
    let all = addresses (drop (suc i) ips) counts in
    let z : length (copies count ip) + suc number ≡ suc (count + number) =
      omega (arith, length-copies count ip) in
    let whole : numbered total (suc number) (copies count ip)
          ++ numbered total (suc (count + number)) all
        ≡ numbered total (suc number) (copies count ip ++ all) =
      sym (
        numbered-append total (suc number) (copies count ip) all
        ∙ ap (λ n. numbered total (suc number) (copies count ip) ++ numbered total n all) z) in
    rw (at, drop-get_elem? ips i ip at, last, carried, rows, more) (ap ok whole)

separated-numbered :
    (total : ℕ) (ips : List String) (number : ℕ)
    → let last = number + length ips - 1 in
      separated (numbered total number ips)
      ≡ ((length ips == 0) || (leb total last && (ltb (last - 1) total || (length ips == 1))))
separated-numbered total [] number = refl
separated-numbered total (x ∷ []) number = ground arith
separated-numbered total (x ∷ y ∷ ips) number =
    ground (arith, separated-numbered total (y ∷ ips) (suc number))

-- ./nodeList/nodeNum<total>/nodeList_<mode>.json
abbrev pub list_path : (ℕ → String) → ℕ → String → String
list_path show total mode =
    text_append "./nodeList/nodeNum"
      (text_append (show total) (text_append "/nodeList_" (text_append mode ".json")))

-- For a total of one node or more, whose configuration has a count for no more instances than there are
-- addresses, and where the file can be created, it has the nodes in the order of the instances, numbered
-- from 1 on, each with the address of its instance and the port 1110 plus its number. It is a list as JSON
-- has them, with a comma between any two nodes and none after the last, exactly where the counts add up to
-- the total or to 0.
pub generate_node_file-valid_iff :
    (creates : String → Bool) (show : ℕ → String) (config : Configuration) (total : ℕ)
    (mode : String)
    → let counts = current_config total config.instance_infos in
      1 ≤ total
      → length counts ≤ length config.instance_ip_list
      → (file : NodeFile) × (file.path ≡ list_path show total mode)
        × (generate_node_file creates show config total mode
            ≡ ok (if creates (list_path show total mode) then some file else none))
        × (file.rows ≡ numbered total 1 (addresses config.instance_ip_list counts))
        × ((separated file.rows ≡ true) ↔ ((sum counts ≡ total) ⊎ (sum counts ≡ 0)))
unfolding generate_node_file
generate_node_file-valid_iff creates show config total mode l enough =
    let counts = current_config total config.instance_infos in
    let ips = config.instance_ip_list in
    let all = addresses ips counts in
    let made : add_instances total ips counts 0 0 true ≡ ok (numbered total 1 all) =
      ap (add_instances total ips counts 0 0) (let c : true ≡ ltb 0 total = ground arith in c)
      ∙ add_instances-numbered total ips counts 0 0 l (omega arith) in
    (
      record { path = list_path show total mode; rows = numbered total 1 all },
      refl,
      bind-ok _ _ _ made refl,
      refl,
      ground (arith, separated-numbered total all 1, length-addresses ips counts),
    )
