-- ===== src/ViewChange.antt =====
-- pbft/consensus/pbft_view_impl.go: the state of a view change at one sequence number.
pub mod Quorum
use pa_bft.Base.{
  string_key, ℕ, ◌+◌, ◌*◌, ◌-◌, ◌/◌, String, Option, none, some, Bool, true, false, ◌&&◌, [], ◌==◌,
  if◌then◌else◌, pos, leb_ℤ, eqb_ℤ, signed32, add32, List, ◌∷◌,
}
use pa_bft.Base.Copy.{copy}
use pa_bft.Base.Map.{Map, contains, insert}
use pa_bft.Message.{ViewChangeMsg, NewViewMsg}

pub record ViewChangeMsgLogs : Type 0 where
  pub view_change_msgs : Map String ViewChangeMsg
  pub total_view_change_msg : ℕ
  -- 0 or 1, swapped by CompareAndSwapInt32
  pub msg_sent : ℕ

pub record VcState : Type 0 where
  pub next_candidate_idx : ℕ
  pub view_change_msg_logs : ViewChangeMsgLogs
  pub new_view_msg : Option NewViewMsg
  pub node_id : String
  pub stable_check_point : ℕ
  pub sequence_id : ℕ
  pub f : ℕ
  pub received_viewchange_time : ℕ

unfoldable pub create_view_change_state : String → ℕ → ℕ → ℕ → ℕ → VcState
create_view_change_state node_id tot_nodes next_candidate_idx stable_check_point sequence_id =
    record {
      next_candidate_idx = next_candidate_idx;
      sequence_id = sequence_id;
      view_change_msg_logs = record {
        view_change_msgs = [];
        total_view_change_msg = 0;
        msg_sent = 0;
      };
      new_view_msg = none;
      node_id = node_id;
      stable_check_point = stable_check_point;
      f = (tot_nodes - 1) / 3;
      received_viewchange_time = 0;
    }

record_view_change : VcState → ViewChangeMsg → VcState
record_view_change vcs m = record vcs {
  view_change_msg_logs = record vcs.view_change_msg_logs {
    view_change_msgs = insert m.node_id m vcs.view_change_msg_logs.view_change_msgs;
    total_view_change_msg = add32 vcs.view_change_msg_logs.total_view_change_msg 1;
  };
}

-- `if newTotal == f + 1 { SetReceiveViewchangeTime(time.Now()) }`
stamp : VcState → ℕ → VcState
stamp vcs now =
    if eqb_ℤ (signed32 vcs.view_change_msg_logs.total_view_change_msg) (pos (vcs.f + 1))
    then record vcs { received_viewchange_time = now }
    else vcs

-- GetViewChangeMsgs: a copy of the map.
unfoldable pub get_view_change_msgs : VcState → Map String ViewChangeMsg
get_view_change_msgs vcs = copy vcs.view_change_msg_logs.view_change_msgs

new_view_of : VcState → NewViewMsg
new_view_of vcs = record {
  node_id = vcs.node_id;
  sequence_id = vcs.sequence_id;
  next_candidate_idx = vcs.next_candidate_idx;
  epoch_id = 0;
  set_view_change_msgs = get_view_change_msgs vcs;
  min_s = 0;
}

-- The flag is swapped only where the first test passes.
announce : VcState → VcState × Option NewViewMsg
announce vcs =
    if leb_ℤ (pos (2 * vcs.f + 1)) (signed32 vcs.view_change_msg_logs.total_view_change_msg)
      && (vcs.view_change_msg_logs.msg_sent == 0)
    then (
      record vcs { view_change_msg_logs = record vcs.view_change_msg_logs { msg_sent = 1 } },
      some (new_view_of vcs),
    )
    else (vcs, none)

-- `now` is the clock. The error that the Go method can return is always nil.
unfoldable pub view_change : VcState → ViewChangeMsg → ℕ → VcState × Option NewViewMsg
unfolding record_view_change stamp new_view_of announce
view_change vcs m now =
    if contains m.node_id vcs.view_change_msg_logs.view_change_msgs
    then (vcs, none)
    else announce (stamp (record_view_change vcs m) now)

abbrev pub cons_some {ℓ} : {A : Type ℓ} → Option A → List A → List A
cons_some none xs = xs
cons_some (some x) xs = x ∷ xs

-- A thread of view-change messages, each with the time at which it is taken.
unfoldable pub view_change_all : VcState → List (ViewChangeMsg × ℕ) → VcState × List NewViewMsg
view_change_all vcs [] = (vcs, [])
view_change_all vcs ((m, now) ∷ ms) =
    let (vcs', answer) = view_change vcs m now in
    let (vcs'', answers) = view_change_all vcs' ms in (vcs'', cons_some answer answers)
