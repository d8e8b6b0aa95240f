-- ===== src/System/Cutting.antt =====
-- A view change (pbft/network/view.go) keeps what the channels and threads of the node hold.
use pa_bft.Base.{
  int64_key, ℕ, zero, suc, ◌≡◌, ◌==◌, refl, Option, none, some, true, add64, sub64, length, arith,
}
use pa_bft.Base.Map.{lookup, insert}
use pa_bft.Base.Chan.{send}
use pa_bft.Base.Values.{AllValues-delete}
use pa_bft.Base.Outcome.{ok, sent, ◌>>=◌}
use pa_bft.Base.Reach.{
  Holds, Holds-ok, Holds-bind, Holds-any, Holds-if, Holds-test, Holds-panic, Holds-fuel,
}
use pa_bft.Message.{PrepareMsg, ViewChangeMsg, NewViewMsg}
use pa_bft.ViewChange.{view_change}
use pa_bft.Node.{Node, in_array, view_changes}
use pa_bft.Node.Primary.{update_epoch_id, get_primary_info_by_id}
use pa_bft.Node.Filling.{
  fill_hole, fill_log, raise_total, blank, empty_proposal, le64, lt64, gap, committed_max_of,
}
use pa_bft.Node.ViewChanging.{
  drop_one, drop_loop, drop_from, vc_state_for, enter_view_change, announce_new_view,
  get_view_change, install_view, start_view_change, create_view_change_msg, create_set_p,
}
use pa_bft.System.Mail.{IsHeard}
use pa_bft.System.Hearing.{broadcast-IsHeard, update_view_id-IsHeard}
use pa_bft.System.Logging.{IsHeard-log}

module _ (P : PrepareMsg → Type 0) where
  pub start_view_change-IsHeard :
      (node : Node) (seq : ℕ) → IsHeard P node → Holds (start_view_change node seq) (IsHeard P)
  unfolding start_view_change
  start_view_change-IsHeard node seq h =
      broadcast-IsHeard P node (view_changes (create_view_change_msg node (create_set_p node) seq))
        "/viewchange" h

  drop_one-IsHeard : (node : Node) (i : ℕ) → IsHeard P node → Holds (drop_one node i) (IsHeard P)
  unfolding drop_one
  drop_one-IsHeard node i h =
      Holds-bind
        (Holds-any (elim (lookup i node.states) [
          | none ↦ ok tt
          | some s ↦ (do queued ← sent (send s.msg_exit 0); ok tt)
        ]))
        λ told e u.
          Holds-if (in_array i)
            (λ z. Holds-ok (record {
              entrance = h.entrance;
              views = h.views;
              delivery = h.delivery;
              execution = h.execution;
              threads = AllValues-delete _ i node.states h.threads;
              log = AllValues-delete (λ k. P) i node.committed_msgs h.log;
            }))
            (λ z. Holds-panic)

  drop_loop-IsHeard :
      (fuel : ℕ) (node : Node) (i top : ℕ)
      → IsHeard P node
      → Holds (drop_loop fuel node i top) (IsHeard P)
  unfolding drop_loop
  drop_loop-IsHeard zero node i top h = Holds-fuel
  drop_loop-IsHeard (suc fuel) node i top h =
      Holds-test (le64 i top)
        (λ more.
          Holds-bind (drop_one-IsHeard node i h)
            λ dropped e h1. drop_loop-IsHeard fuel dropped (add64 i 1) top h1)
        (λ done. Holds-ok h)

  pub drop_from-IsHeard :
      (node : Node) (seq : ℕ) → IsHeard P node → Holds (drop_from node seq) (IsHeard P)
  unfolding drop_from
  drop_from-IsHeard node seq h =
      drop_loop-IsHeard (suc (suc (gap seq node.total_consensus))) node seq node.total_consensus h

  pub vc_state_for-IsHeard :
      (node : Node) (seq addr : ℕ) → IsHeard P node → IsHeard P (vc_state_for node seq addr).0
  unfolding vc_state_for
  vc_state_for-IsHeard node seq addr h =
      let same : (vc_state_for node seq addr).0
          ≡ record node { vc_states = (vc_state_for node seq addr).0.vc_states } =
        ground arith in
      rw same h

  enter_view_change-IsHeard :
      (node : Node) (answer : Option NewViewMsg)
      → IsHeard P node
      → Holds (enter_view_change node answer) (IsHeard P)
  unfolding enter_view_change
  enter_view_change-IsHeard node none h = Holds-ok h
  enter_view_change-IsHeard node (some nv) h =
      drop_from-IsHeard (record node { is_view_changing = true }) nv.sequence_id h

  announce_new_view-IsHeard :
      (node : Node) (answer : Option NewViewMsg)
      → IsHeard P node
      → Holds (announce_new_view node answer) (IsHeard P)
  unfolding announce_new_view
  announce_new_view-IsHeard node none h =
      Holds-bind (Holds-any (get_primary_info_by_id node node.next_candidate_idx))
        λ p e u. Holds-ok h
  announce_new_view-IsHeard node (some nv) h =
      Holds-bind (Holds-any (get_primary_info_by_id node node.next_candidate_idx)) λ p e u.
        Holds-if (node.my_info.addr == p.addr) (λ z. broadcast-IsHeard P node _ "/newview" h)
          (λ z. Holds-ok h)

  pub get_view_change-IsHeard :
      (node : Node) (m : ViewChangeMsg) (addr now : ℕ)
      → IsHeard P node
      → Holds (get_view_change node m addr now) (IsHeard P)
  unfolding get_view_change
  get_view_change-IsHeard node m addr now h =
      let made = vc_state_for node m.sequence_id addr in
      let answered = view_change made.1 m now in
      let counted : Node = record made.0 {
        vc_states = insert m.sequence_id answered.0 made.0.vc_states;
      } in
      let h1 : IsHeard P counted = vc_state_for-IsHeard node m.sequence_id addr h in
      Holds-bind (enter_view_change-IsHeard counted answered.1 h1)
        λ cleared e h2. announce_new_view-IsHeard cleared answered.1 h2

  fill_log-IsHeard :
      (fuel : ℕ) (node : Node) (i min_s : ℕ)
      → ((n : Node) (seq : ℕ) → P (empty_proposal n seq))
      → IsHeard P node
      → Holds (fill_log fuel node i min_s) (IsHeard P)
  unfolding fill_log blank
  fill_log-IsHeard zero node i min_s empty h = Holds-fuel
  fill_log-IsHeard (suc fuel) node i min_s empty h =
      Holds-test (le64 i min_s)
        (λ more.
          Holds-bind
            (let p : Holds (blank node i) (λ p. p ≡ empty_proposal node i) =
                Holds-if (length node.node_table == 0) (λ z. Holds-panic) (λ z. Holds-ok refl) in
              p)
            λ p e same.
              fill_log-IsHeard fuel
                (record node { committed_msgs = insert i p node.committed_msgs }) (add64 i 1) min_s
                empty (IsHeard-log P node i p h (rw same (empty node i))))
        (λ done. Holds-ok h)

  raise_total-IsHeard :
      (fuel : ℕ) (node : Node) (min_s : ℕ)
      → IsHeard P node
      → Holds (raise_total fuel node min_s) (IsHeard P)
  unfolding raise_total
  raise_total-IsHeard zero node min_s h = Holds-fuel
  raise_total-IsHeard (suc fuel) node min_s h =
      Holds-test (lt64 node.total_consensus min_s)
        (λ more.
          raise_total-IsHeard fuel (record node { total_consensus = add64 node.total_consensus 1 })
            min_s h)
        (λ done. Holds-ok h)

  pub install_view-IsHeard :
      (node : Node) (nv : NewViewMsg)
      → ((n : Node) (seq : ℕ) → P (empty_proposal n seq))
      → IsHeard P node
      → Holds (install_view node nv) (IsHeard P)
  unfolding install_view fill_hole update_epoch_id
  install_view-IsHeard node nv empty h =
      let start = committed_max_of node in
      let fuel = suc (suc (gap start nv.min_s)) in
      Holds-bind
        (Holds-bind (fill_log-IsHeard fuel node start nv.min_s empty h) λ filled e h1.
          raise_total-IsHeard (suc (gap filled.total_consensus nv.min_s)) filled nv.min_s h1)
        λ filled e h1.
          Holds-bind
            (update_view_id-IsHeard P
              (record filled { stable_check_point = nv.min_s; epoch_id = nv.epoch_id })
              (sub64 nv.sequence_id 1) h1)
            λ viewed e1 h2. Holds-ok h2
