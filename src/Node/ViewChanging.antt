-- ===== src/Node/ViewChanging.antt =====
-- The view change (pbft/network/view.go): StartViewChange, GetViewChange and GetNewView.
use text.Mathlib.Text.{◌==◌ as text_beq}
use pa_bft.Base.{
  int64_key, string_key, ℕ, zero, suc, ◌==◌, Option, none, some, true, false, [], ◌∷◌, length,
  add64, sub64, div64, rem64, get_elem?, if◌then◌else◌,
}
use pa_bft.Base.Map.{Map, lookup, insert, delete}
use pa_bft.Base.Chan.{send}
use pa_bft.Base.Outcome.{Outcome, ok, panic, out_of_fuel, deref, sent, ◌>>=◌}
use pa_bft.Message.{SetPm, ViewChangeMsg, NewViewMsg}
use pa_bft.State.{State}
use pa_bft.State.Collating.{get_vote_msgs}
use pa_bft.ViewChange.{VcState, create_view_change_state, view_change}
use pa_bft.Node.{Node, NodeInfo, view_changes, new_views, prepares, in_array, write}
use pa_bft.Node.Primary.{update_view_id, update_epoch_id, get_primary_info_by_id}
use pa_bft.Node.Threads.{Env, broadcast, prepare_msg_making, no_seed, start_thread_if_not_exists}
use pa_bft.Node.Filling.{le64, gap, find_stable_checkpoint, fill_hole}

set_p_of : Map ℕ State → Map ℕ SetPm
set_p_of [] = []
set_p_of ((seq, s) ∷ rest) =
    (seq, record { prepare_msg = s.msg_logs.prepare_msg; vote_msgs = get_vote_msgs s })
    ∷ set_p_of rest

unfoldable pub create_set_p : Node → Map ℕ SetPm
unfolding set_p_of
create_set_p node = set_p_of node.states

unfoldable pub create_view_change_msg : Node → Map ℕ SetPm → ℕ → ViewChangeMsg
create_view_change_msg node setp sequence_id = record {
  node_id = node.my_info.node_id;
  sequence_id = sequence_id;
  next_candidate_idx = node.next_candidate_idx;
  stable_check_point = node.stable_check_point;
  set_p = setp;
}

unfoldable pub start_view_change : Node → ℕ → Outcome Node
unfolding create_set_p create_view_change_msg broadcast
start_view_change node sequence_id =
    broadcast node (view_changes (create_view_change_msg node (create_set_p node) sequence_id))
      "/viewchange"

-- One round of the loop that both handlers run: the thread of sequence number `i` is told to exit, and
-- what the node holds of `i` is dropped.
unfoldable pub drop_one : Node → ℕ → Outcome Node
drop_one node i = do
  told ← elim (lookup i node.states) [
    | none ↦ ok tt
    | some s ↦ (do queued ← sent (send s.msg_exit 0); ok tt)
  ]
  if in_array i
      then ok (record node {
        committed_msgs = delete i node.committed_msgs;
        committed = write node.committed i 0;
        prepared = write node.prepared i 0;
        states = delete i node.states;
        total_consensus = sub64 node.total_consensus 1;
      })
      else panic

-- `for i := SequenceID; i <= totalcon; i++`, on fuel.
unfoldable pub drop_loop : ℕ → Node → ℕ → ℕ → Outcome Node
drop_loop zero node i totalcon = out_of_fuel
drop_loop (suc fuel) node i totalcon = elim (le64 i totalcon) [
  | false ↦ ok node
  | true ↦ (do dropped ← drop_one node i; drop_loop fuel dropped (add64 i 1) totalcon)
]

-- From a sequence number to the number of threads at the start. The loop makes a round for each number
-- between them.
unfoldable pub drop_from : Node → ℕ → Outcome Node
unfolding drop_one drop_loop
drop_from node seq =
    drop_loop (suc (suc (gap seq node.total_consensus))) node seq node.total_consensus

-- The view-change state of a sequence number, made if need be. `addr` is the address of a new state:
-- the compare-and-swap reads the first word of the state, its candidate, as a pointer, and writes the
-- address over it where it is 0.
unfoldable pub vc_state_for : Node → ℕ → ℕ → Node × VcState
unfolding create_view_change_state
vc_state_for node sequence_id addr = elim (lookup sequence_id node.vc_states) [
  | some vcs ↦ (node, vcs)
  | none ↦
      let made =
        create_view_change_state node.my_info.node_id (length node.node_table)
          node.next_candidate_idx node.stable_check_point sequence_id in
      let swapped : VcState =
        if made.next_candidate_idx == 0 then record made { next_candidate_idx = addr } else made in
      (record node { vc_states = insert sequence_id swapped node.vc_states }, swapped)
]

-- The message of the new primary. `MyInfo == nextPrimary` compares pointers.
unfoldable pub announce_new_view : Node → Option NewViewMsg → Outcome Node
unfolding find_stable_checkpoint broadcast get_primary_info_by_id
announce_new_view node answer = do
  next_primary ← get_primary_info_by_id node node.next_candidate_idx
  elim answer [
    | none ↦ ok node
    | some nv ↦
        if node.my_info.addr == next_primary.addr
        then (let min_s = find_stable_checkpoint nv in
            broadcast node (new_views (record nv { min_s = min_s; epoch_id = div64 min_s 10 }))
              "/newview")
        else ok node
  ]

-- A quorum that is complete puts the node into the view change, and what it holds is dropped.
unfoldable pub enter_view_change : Node → Option NewViewMsg → Outcome Node
unfolding drop_from
enter_view_change node none = ok node
enter_view_change node (some nv) =
    drop_from (record node { is_view_changing = true }) nv.sequence_id

unfoldable pub get_view_change : Node → ViewChangeMsg → ℕ → ℕ → Outcome Node
unfolding vc_state_for enter_view_change announce_new_view
get_view_change node m addr now = do
  let (made, vcs) = vc_state_for node m.sequence_id addr
  let (vcs', answer) = view_change vcs m now
  let counted : Node = record made { vc_states = insert m.sequence_id vcs' made.vc_states }
  cleared ← enter_view_change counted answer
  announce_new_view cleared answer

-- How `GetNewView` ends. At the new primary it receives from a channel that it has just made and that
-- nobody sends on, so that its thread waits for ever.
pub data Finish : Type 0 where
  returned waits : Finish

-- The candidate moves on, except at every tenth sequence number.
abbrev pub next_candidate : Node → ℕ → Node
next_candidate node seq =
    if rem64 seq 10 == 0
    then record node { next_candidate_idx = 7 }
    else record node { next_candidate_idx = add64 node.next_candidate_idx 1 }

-- The log is filled, and view, epoch and checkpoint are those of the new view.
unfoldable pub install_view : Node → NewViewMsg → Outcome Node
unfolding fill_hole update_view_id update_epoch_id
install_view node nv = do
  filled ← fill_hole node nv
  viewed ←
      update_view_id (record filled { stable_check_point = nv.min_s; epoch_id = nv.epoch_id })
        (sub64 nv.sequence_id 1)
  ok (update_epoch_id viewed (sub64 nv.sequence_id 1))

-- The message goes into the view-change state of its sequence number.
unfoldable pub register_new_view : Node → NewViewMsg → ℕ → Node
unfolding vc_state_for
register_new_view node nv addr =
    let (made, vcs) =
      vc_state_for (record node { next_candidate_idx = nv.next_candidate_idx }) nv.sequence_id
        addr in
    record made {
      vc_states = insert nv.sequence_id (record vcs { new_view_msg = some nv }) made.vc_states;
    }

-- The new primary proposes.
unfoldable pub propose_first : Env → Node → NewViewMsg → NodeInfo → ℕ → Outcome (Node × Finish)
unfolding broadcast prepare_msg_making
propose_first env node nv primary now =
    if text_beq primary.node_id node.my_info.node_id
    then (do
      proposed ←
          broadcast node
            (prepares (
              prepare_msg_making env "Op1" "Client1" node.view.id nv.sequence_id
                node.my_info.node_id no_seed node.epoch_id now))
            "/prepare"
      ok (proposed, waits))
    else ok (node, returned)

unfoldable pub get_new_view : Env → Node → NewViewMsg → ℕ → ℕ → Outcome (Node × Finish)
unfolding drop_from register_new_view install_view start_thread_if_not_exists propose_first
get_new_view env node nv addr now = do
  dropped ← drop_from (record node { is_view_changing = true }) nv.sequence_id
  installed ← install_view (register_new_view dropped nv addr) nv
  primary ← deref (get_elem? installed.node_table installed.next_candidate_idx)
  (threaded, thread) ←
      start_thread_if_not_exists (next_candidate installed nv.sequence_id) nv.sequence_id
  propose_first env (record threaded { is_view_changing = false }) nv primary now
