-- ===== src/Tests/Changing.antt =====
-- The view change of a node.
use text.Mathlib.Text.{◌==◌ as text_beq}
use pa_bft.Base.{
  int64_key, string_key, ℕ, ◌≡◌, ◌≢◌, ◌<◌, ◌≤◌, refl, none, some, [], ◌∷◌, ◌++◌, length, arith,
  if◌then◌else◌, ◌==◌, true, false, get_elem?,
}
use pa_bft.Base.Copy.{copy}
use pa_bft.Base.Map.{lookup, insert, contains, delete}
use pa_bft.Base.Outcome.{panic, out_of_fuel}
use pa_bft.Message.{NewViewMsg}
use pa_bft.State.{create_state}
use pa_bft.ViewChange.{create_view_change_state, view_change, get_view_change_msgs}
use pa_bft.Node.{Node, NodeInfo}
use pa_bft.Node.Primary.{get_primary_info_by_id, update_view_id, update_epoch_id}
use pa_bft.Node.Execute.{execute_msg}
use pa_bft.Node.Log.{InOrder}
use pa_bft.Node.Threads.{
  Env, broadcast, start_thread_if_not_exists, start_timer, prepare_msg_making,
}
use pa_bft.Node.Starting.{is_some}
use pa_bft.Node.Filling.{
  find_stable_checkpoint, fill_hole, min_s_loop, committed_max_of, committed_max_loop, fill_log,
  raise_total, blank, empty_proposal,
}
use pa_bft.Node.Holes.{fill_hole-ends, fill_hole-InOrder, fill_hole-breaks_executor}
use pa_bft.Node.ViewChanging.{
  Finish, returned, waits, drop_one, drop_loop, drop_from, vc_state_for, enter_view_change,
  announce_new_view, get_view_change, register_new_view, install_view, propose_first, get_new_view,
}
use pa_bft.Node.Dropping.{drop_from_lem}
use pa_bft.Node.Installing.{
  announcement, get_view_change_lem, get_new_view_lem, IsHighest, Clears, counted,
}
use pa_bft.Tests.Data.{started, proposal, change_from, finished}

-- A NEW-VIEW message of three nodes with stable checkpoint 2, for sequence number 3.
abbrev to_three : NewViewMsg
to_three = record {
  node_id = "A";
  sequence_id = 3;
  next_candidate_idx = 4;
  epoch_id = 0;
  set_view_change_msgs =
      ("A", change_from "A") ∷ ("B", change_from "B") ∷ ("C", change_from "C") ∷ [];
  min_s = 2;
}

-- One proposal is executed.
abbrev one_done : Node
one_done = record started { committed_msgs = (1, proposal 1) ∷ [] }

fill_hole-ends_example : fill_hole one_done to_three ≢ out_of_fuel
fill_hole-ends_example =
    fill_hole-ends one_done to_three (omega arith) (omega arith) (omega arith) (omega arith)

abbrev filled_one : Node
filled_one = finished started (fill_hole one_done to_three)

fill_hole-InOrder_example :
    InOrder 1 filled_one.committed_msgs
    × (length filled_one.committed_msgs ≡ 2)
    × (2 ≤ filled_one.total_consensus)
    × ((j : ℕ) → j < 1 → lookup j filled_one.committed_msgs ≡ lookup j one_done.committed_msgs)
    × (1 ≤ 2 → lookup 1 filled_one.committed_msgs ≡ some (empty_proposal one_done 1))
unfolding fill_hole committed_max_of committed_max_loop fill_log raise_total blank lookup insert
fill_hole-InOrder_example =
    fill_hole-InOrder one_done filled_one to_three (omega arith) (omega arith) (omega arith)
      (omega arith) (omega arith) refl

abbrev filled_none : Node
filled_none = finished started (fill_hole started to_three)

fill_hole-breaks_executor_example :
    (lookup 0 filled_none.committed_msgs ≡ some (empty_proposal started 0))
    × InOrder 0 filled_none.committed_msgs
    × (length filled_none.committed_msgs ≡ 3)
    × (execute_msg filled_none [] (some (proposal 1)) ≡ panic)
unfolding fill_hole committed_max_of committed_max_loop fill_log raise_total blank lookup insert
fill_hole-breaks_executor_example =
    fill_hole-breaks_executor started filled_none to_three [] (proposal 1) refl (omega arith)
      (omega arith) refl

abbrev dropped_two : Node
dropped_two = finished started (drop_from started 2)

drop_from_lem_example :
    (lookup 1 dropped_two.states ≡ lookup 1 started.states)
    × (lookup 1 dropped_two.committed_msgs ≡ none)
    × (dropped_two.committed 1 ≡ 0)
    × (dropped_two.prepared 1 ≡ 0)
    × (dropped_two.total_consensus ≡ 1)
unfolding drop_from drop_loop drop_one delete lookup create_state
drop_from_lem_example =
    drop_from_lem started dropped_two 2 1 (omega arith) (omega arith) (omega arith) refl

-- Two nodes want a new view, and the candidate is the node itself.
abbrev wanting : Node
wanting = record started {
  next_candidate_idx = 0;
  vc_states =
      (
        3,
        record (create_view_change_state "Node1" 4 0 2 3) {
          view_change_msg_logs = record {
            view_change_msgs = ("A", change_from "A") ∷ ("B", change_from "B") ∷ [];
            total_view_change_msg = 2;
            msg_sent = 0;
          };
        },
      )
      ∷ [];
}

abbrev changed : Node
changed = finished started (get_view_change wanting (change_from "C") 77 8)

get_view_change_lem_example :
    let answer = (view_change (vc_state_for wanting 3 77).1 (change_from "C") 8).1 in
    (candidate : NodeInfo) × (get_elem? wanting.node_table 0 ≡ some candidate)
    × (changed.is_view_changing ≡ (if is_some answer then true else false))
    × (changed.msg_outbound.queue ≡ [] ++ announcement (1 == candidate.addr) "localhost" answer)
    × IsHighest answer
    × (cleared : Node) × Clears (counted wanting (change_from "C") 77 8) answer cleared
    × (changed ≡ record cleared { msg_outbound = changed.msg_outbound })
unfolding get_view_change vc_state_for enter_view_change announce_new_view broadcast view_change
    drop_from drop_loop drop_one delete lookup insert contains create_state create_view_change_state
    get_view_change_msgs copy get_primary_info_by_id find_stable_checkpoint min_s_loop
get_view_change_lem_example =
    get_view_change_lem wanting changed (change_from "C") 77 8 9 (omega arith)
      (omega arith, (omega arith, (omega arith, tt))) refl

abbrev env : Env
env = record { digest = λ r. some "d"; dummy = "A"; first = λ m. none }

abbrev installed : Node × Finish
installed = finished (started, returned) (get_new_view env one_done to_three 77 8)

get_new_view_lem_example :
    (primary : NodeInfo) × (get_elem? one_done.node_table 4 ≡ some primary)
    × (installed.1 ≡ (if text_beq primary.node_id "Node1" then waits else returned))
    × (installed.0.is_view_changing ≡ false)
    × (installed.0.stable_check_point ≡ 2)
    × (installed.0.epoch_id ≡ 0)
    × (installed.0.view.id ≡ 2)
    × (is_some (lookup 3 installed.0.states) ≡ true)
unfolding get_new_view drop_from drop_loop drop_one register_new_view vc_state_for install_view
    propose_first fill_hole committed_max_of committed_max_loop fill_log raise_total blank delete
    lookup insert create_state create_view_change_state update_view_id update_epoch_id
    get_primary_info_by_id start_thread_if_not_exists start_timer broadcast prepare_msg_making
get_new_view_lem_example = get_new_view_lem env one_done installed.0 to_three 77 8 installed.1 refl

-- Two proposals are executed.
abbrev two_done : Node
two_done = record started { committed_msgs = (1, proposal 1) ∷ (2, proposal 2) ∷ [] }

abbrev renewed : Node × Finish
renewed = finished (started, returned) (get_new_view env two_done to_three 77 8)
