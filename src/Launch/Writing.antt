-- ===== src/Launch/Writing.antt =====
-- What main of pbft/gen_nodelist.go writes.
use pa_bft.Base.{
  ap, none, ℕ, ◌≤◌, ◌≡◌, ◌⊎◌, ◌↔◌, refl, String, Option, some, true, List, [], ◌∷◌, length,
  Bool-cases, inl, inr, false, Bool, ◌∙◌, if◌then◌else◌,
}
use pa_bft.Base.Outcome.{ok, bind-ok}
use pa_bft.Launch.{NodeFile, Configuration, current_config, get_instance_info}
use pa_bft.Launch.NodeList.{
  addresses, numbered, sum, separated, list_path, generate_node_file-valid_iff,
}
use pa_bft.Launch.Listing.{config_path, generate_all, main, writes}

abbrev pub counts_for : Configuration → ℕ → List ℕ
counts_for config total = current_config total config.instance_infos

-- A file can be written for the total.
abbrev pub IsListable : Configuration → ℕ → Type 0
IsListable config total =
    (1 ≤ total) × (length (counts_for config total) ≤ length config.instance_ip_list)

abbrev pub AreListable : Configuration → List ℕ → Type 0
AreListable config [] = Unit {0}
AreListable config (total ∷ totals) = IsListable config total × AreListable config totals

module _ (creates : String → Bool) (show : ℕ → String) (config : Configuration)
    (mode : String) where
  -- A file stands at the path of its total, has the nodes of the total in the order of the instances, and
  -- is JSON where the counts add up.
  abbrev pub IsList : ℕ → NodeFile → Type 0
  IsList total file =
      (file.path ≡ list_path show total mode)
      × (file.rows ≡ numbered total 1 (addresses config.instance_ip_list (counts_for config total)))
      × ((separated file.rows ≡ true)
          ↔ ((sum (counts_for config total) ≡ total) ⊎ (sum (counts_for config total) ≡ 0)))

  -- One file for each total whose file can be created, in their order.
  abbrev pub AreLists : List ℕ → List NodeFile → Type 0
  AreLists [] files = files ≡ []
  AreLists (total ∷ totals) files =
      (rest : List NodeFile) × AreLists totals rest
      × (((creates (list_path show total mode) ≡ false) × (files ≡ rest))
          ⊎ ((creates (list_path show total mode) ≡ true)
              × ((file : NodeFile) × (files ≡ file ∷ rest) × IsList total file)))

  generate_all-AreLists :
      (totals : List ℕ)
      → AreListable config totals
      → (files : List NodeFile) × (generate_all creates show config mode totals ≡ ok files)
        × AreLists totals files
  unfolding generate_all
  generate_all-AreLists [] able = ([], refl, refl)
  generate_all-AreLists (total ∷ totals) able =
      let (file, at, made, rows, valid) =
        generate_node_file-valid_iff creates show config total mode able.0.0 able.0.1 in
      let (files, rest, all) = generate_all-AreLists totals able.1 in
      elim (Bool-cases (creates (list_path show total mode))) [
        | inl can ↦ (
          file ∷ files,
          bind-ok _ _ _ (made ∙ ap (λ b. ok (if b then some file else none)) can)
              (bind-ok _ _ _ rest refl),
          (files, all, inr (can, (file, refl, (at, rows, valid)))),
        )
        | inr cannot ↦ (
          files,
          bind-ok _ _ _ (made ∙ ap (λ b. ok (if b then some file else none)) cannot)
              (bind-ok _ _ _ rest refl),
          (files, all, inl (cannot, refl)),
        )
      ]

-- Where the configuration of the mode can be read, and has for each total, which is one node or more,
-- counts for no more instances than there are addresses: the program does not crash and writes one file
-- for each total whose file can be created, in the order of the configuration, and nothing for the others.
-- A file stands at ./nodeList/nodeNum<total>/nodeList_<mode>.json and has the nodes in the order of the
-- instances, numbered from 1 on, each with the address of its instance and the port 1110 plus its number.
-- It is a list as JSON has them, with a comma between any two nodes and none after the last, exactly where
-- the counts add up to the total or to 0.
pub main-writes_lists :
    (creates : String → Bool) (show : ℕ → String) (decodes : String → Option Configuration)
    (config : Configuration) (program mode : String) (more : List String)
    → decodes (config_path mode) ≡ some config
    → AreListable config (get_instance_info config)
    → (files : List NodeFile) × (main creates show decodes (program ∷ mode ∷ more)
        ≡ ok (writes files))
      × AreLists creates show config mode (get_instance_info config) files
unfolding main
main-writes_lists creates show decodes config program mode more read able =
    let (files, made, all) =
      generate_all-AreLists creates show config mode (get_instance_info config) able in
    (files, rw read (bind-ok _ _ _ made refl), all)
