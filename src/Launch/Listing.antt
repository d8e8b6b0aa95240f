-- ===== src/Launch/Listing.antt =====
-- main of pbft/gen_nodelist.go. The file of the configuration and JSON are a parameter, and so is whether
-- a file can be created.
use text.Mathlib.Text.{◌==◌ as text_beq}
use pa_bft.Base.{Bool, ℕ, String, Option, none, some, List, [], ◌∷◌, get_elem?, if◌then◌else◌}
use pa_bft.Base.Outcome.{Outcome, ok, deref, ◌>>=◌}
use pa_bft.Launch.{Configuration, NodeFile, get_instance_info, generate_node_file}

-- How the program ends, if it does not crash: AssertError ends it, or it has run to its end, with the
-- files that could be created.
pub data Listed : Type 0 where
  stops : Listed
  writes : List NodeFile → Listed

-- Any other mode leaves the path empty.
unfoldable pub config_path : String → String
config_path mode =
    if text_beq mode "remote"
    then "./config_remote.json"
    else if text_beq mode "aws"
    then "./config_aws.json"
    else ""

abbrev pub add_file : Option NodeFile → List NodeFile → List NodeFile
add_file none files = files
add_file (some file) files = file ∷ files

-- One file for each number of nodes.
unfoldable pub generate_all :
    (String → Bool) → (ℕ → String) → Configuration → String → List ℕ → Outcome (List NodeFile)
generate_all creates show config mode [] = ok []
generate_all creates show config mode (total ∷ totals) = do
  file ← generate_node_file creates show config total mode
  files ← generate_all creates show config mode totals
  ok (add_file file files)

-- `decodes` opens and decodes the file at a path, and `args` is os.Args.
unfoldable pub main :
    (String → Bool) → (ℕ → String) → (String → Option Configuration) → List String → Outcome Listed
unfolding config_path generate_all get_instance_info
main creates show decodes args = do
  mode ← deref (get_elem? args 1)
  elim (decodes (config_path mode)) [
    | none ↦ ok stops
    | some config ↦ (do
      files ← generate_all creates show config mode (get_instance_info config)
      ok (writes files))
  ]
