-- ===== src/Tests/Views.antt =====
-- View changes and primaries.
use pa_bft.Base.{string_key, ℕ, ◌+◌, ◌*◌, ◌≡◌, refl, true, List, [], ◌∷◌, arith, length}
use pa_bft.Base.Map.{contains, insert}
use pa_bft.Base.Copy.{copy}
use pa_bft.Base.Keys.{IsDistinct}
use pa_bft.Message.{NewViewMsg, ViewChangeMsg}
use pa_bft.ViewChange.{
  VcState, create_view_change_state, view_change, view_change_all, get_view_change_msgs,
}
use pa_bft.ViewChange.Quorum.{
  IsCounted, create_view_change_state-IsCounted, view_change-IsCounted,
  view_change_all-announces_once, view_change-new_view_proof,
}
use pa_bft.Tests.Data.{fresh_view_change, change_from}

fresh-IsCounted : IsCounted fresh_view_change
fresh-IsCounted = create_view_change_state-IsCounted "A" 4 10 2 3

abbrev changes : List (ViewChangeMsg × ℕ)
changes =
    (change_from "A", 5) ∷ (change_from "B", 6) ∷ (change_from "B", 7) ∷ (change_from "C", 8) ∷ []

-- A and B want a new view.
abbrev two_changes : VcState
two_changes =
    (view_change (view_change fresh_view_change (change_from "A") 5).0 (change_from "B") 6).0

two_changes-IsCounted : IsCounted two_changes
unfolding view_change create_view_change_state contains insert
two_changes-IsCounted =
    view_change-IsCounted (view_change fresh_view_change (change_from "A") 5).0 (change_from "B") 6
      (omega arith)
      (view_change-IsCounted fresh_view_change (change_from "A") 5 (omega arith) fresh-IsCounted)

view_change_all-announces_once_example : length (view_change_all fresh_view_change changes).1 ≡ 1
unfolding view_change_all view_change create_view_change_state contains insert
view_change_all-announces_once_example =
    view_change_all-announces_once fresh_view_change changes fresh-IsCounted (omega arith)

abbrev announced : NewViewMsg
announced = record {
  node_id = "A";
  sequence_id = 3;
  next_candidate_idx = 10;
  epoch_id = 0;
  set_view_change_msgs =
      ("A", change_from "A") ∷ ("B", change_from "B") ∷ ("C", change_from "C") ∷ [];
  min_s = 0;
}

view_change-new_view_proof_example :
    IsDistinct announced.set_view_change_msgs
    × (length announced.set_view_change_msgs ≡ 2 * two_changes.f + 1)
    × (contains "C" announced.set_view_change_msgs ≡ true)
    × (announced.sequence_id ≡ two_changes.sequence_id)
    × (announced.next_candidate_idx ≡ two_changes.next_candidate_idx)
unfolding view_change create_view_change_state contains insert get_view_change_msgs copy
view_change-new_view_proof_example =
    view_change-new_view_proof two_changes (change_from "C") 8 announced (omega arith)
      two_changes-IsCounted refl
