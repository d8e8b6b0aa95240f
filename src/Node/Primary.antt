-- ===== src/Node/Primary.antt =====
-- The view, the epoch and the primary (pbft/network/view.go).
use pa_bft.Base.{
  ℕ, ◌<◌, ◌≤◌, ◌%◌, ◌^◌, ◌≡◌, refl, some, Bool, length, arith, get_elem?, get_elem?-lt,
  get_elem?-ge, div64, rem64, ◌↔◌,
}
use text.Mathlib.Text.{◌==◌ as text_beq}
use pa_bft.Base.Outcome.{Outcome, ok, panic, deref, ◌>>=◌}
use pa_bft.Node.{Node, NodeInfo}

unfoldable pub update_epoch_id : Node → ℕ → Node
update_epoch_id node sequence_id = record node { epoch_id = div64 sequence_id 10 }

-- A view id past the table is logged, and the table is indexed all the same.
unfoldable pub get_primary_info_by_id : Node → ℕ → Outcome NodeInfo
get_primary_info_by_id node view_id = deref (get_elem? node.node_table view_id)

unfoldable pub update_view_id : Node → ℕ → Outcome Node
unfolding get_primary_info_by_id
update_view_id node view_id = do
  let id = rem64 view_id 10
  primary ← get_primary_info_by_id node id
  ok (record node { view = record { id = id; primary = some primary } })

-- A view without a primary is dereferenced as a nil pointer.
unfoldable pub is_my_node_primary : Node → Outcome Bool
is_my_node_primary node = do
  primary ← deref node.view.primary
  ok (text_beq node.my_info.node_id primary.node_id)

unfoldable pub set_new_seed_list : Node → ℕ → Outcome Node
set_new_seed_list node seed_no = do
  table ← deref (get_elem? node.seed_node_tables seed_no)
  ok (record node { node_table = table })

-- `getPrimaryInfoByID` panics exactly where the index is not below the length of the table, so also at
-- the length itself, which its guard `viewIdx > len` lets pass in silence.
pub get_primary_info_by_id-panics_iff :
    (node : Node) (view_id : ℕ)
    → (get_primary_info_by_id node view_id ≡ panic) ↔ (length node.node_table ≤ view_id)
unfolding get_primary_info_by_id
get_primary_info_by_id-panics_iff node view_id = (
  λ h. ground (arith, get_elem?-lt node.node_table view_id),
  λ h. rw (get_elem?-ge node.node_table view_id h) refl,
)

-- With ten nodes or more and a view id that is not negative, `updateViewID` returns, with the view id
-- modulo 10 and the node of the table at that place as the primary.
pub update_view_id-total :
    (node : Node) (view_id : ℕ)
    → 10 ≤ length node.node_table
    → view_id < 2 ^ 63
    → (primary : NodeInfo) × (get_elem? node.node_table (view_id % 10) ≡ some primary)
      × (update_view_id node view_id
          ≡ ok (record node { view = record { id = view_id % 10; primary = some primary } }))
unfolding update_view_id
update_view_id-total node view_id ten small =
    let (primary, e) = get_elem?-lt node.node_table (view_id % 10) (omega arith) in
    (primary, e, ground arith)
