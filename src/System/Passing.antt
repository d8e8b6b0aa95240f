-- ===== src/System/Passing.antt =====
-- What a node puts on the way out, under any interleaving of its goroutines (pbft/network/node.go,
-- pbft/network/view.go).
use pa_bft.Base.{int64_key, ℕ, ◌==◌, refl, true, false, Option, none, some, get_elem?, arith}
use text.Mathlib.Text.{◌==◌ as text_beq}
use pa_bft.Base.Map.{insert}
use pa_bft.Base.Outcome.{deref}
use pa_bft.Base.Reach.{Holds, Holds-ok, Holds-bind, Holds-any, Holds-from, Holds-if}
use pa_bft.Message.{PrepareMsg, ViewChangeMsg, NewViewMsg}
use pa_bft.ViewChange.{view_change as view_change_on}
use pa_bft.Node.{Node, NodeInfo, view_changes, prepares}
use pa_bft.Node.Primary.{update_view_id, update_epoch_id, get_primary_info_by_id}
use pa_bft.Node.Threads.{Env, no_seed, prepare_msg_making, start_thread_if_not_exists}
use pa_bft.Node.Starting.{start_thread_if_not_exists-frame}
use pa_bft.Node.Untouched.{drop_from-SameNode, fill_hole-SameNode}
use pa_bft.Node.Filling.{fill_hole}
use pa_bft.Node.ViewChanging.{
  start_view_change, create_view_change_msg, create_set_p, vc_state_for, enter_view_change,
  announce_new_view, get_view_change, drop_from, install_view, register_new_view, next_candidate,
  propose_first, get_new_view,
}
use pa_bft.System.Outgoing.{IsSending, IsMade, broadcast-IsSending, same-IsSending}

module _ (Q : PrepareMsg → Type 0) where
  pub start_view_change-IsSending :
      (node : Node) (seq : ℕ) → IsSending Q node → Holds (start_view_change node seq) (IsSending Q)
  unfolding start_view_change
  start_view_change-IsSending node seq h =
      broadcast-IsSending Q node
        (view_changes (create_view_change_msg node (create_set_p node) seq)) "/viewchange" h refl

  drop_from-IsSending :
      (node : Node) (seq : ℕ) → IsSending Q node → Holds (drop_from node seq) (IsSending Q)
  drop_from-IsSending node seq h =
      Holds-from (drop_from node seq) λ dropped e.
        same-IsSending Q node dropped h (drop_from-SameNode node dropped seq e).outbound

  enter_view_change-IsSending :
      (node : Node) (answer : Option NewViewMsg)
      → IsSending Q node
      → Holds (enter_view_change node answer) (IsSending Q)
  unfolding enter_view_change
  enter_view_change-IsSending node none h = Holds-ok h
  enter_view_change-IsSending node (some nv) h =
      drop_from-IsSending (record node { is_view_changing = true }) nv.sequence_id h

  announce_new_view-IsSending :
      (node : Node) (answer : Option NewViewMsg)
      → IsSending Q node
      → Holds (announce_new_view node answer) (IsSending Q)
  unfolding announce_new_view
  announce_new_view-IsSending node none h =
      Holds-bind (Holds-any (get_primary_info_by_id node node.next_candidate_idx))
        λ p e u. Holds-ok h
  announce_new_view-IsSending node (some nv) h =
      Holds-bind (Holds-any (get_primary_info_by_id node node.next_candidate_idx)) λ p e u.
        Holds-if (node.my_info.addr == p.addr) (λ z. broadcast-IsSending Q node _ "/newview" h refl)
          (λ z. Holds-ok h)

  pub get_view_change-IsSending :
      (node : Node) (m : ViewChangeMsg) (addr now : ℕ)
      → IsSending Q node
      → Holds (get_view_change node m addr now) (IsSending Q)
  unfolding get_view_change
  get_view_change-IsSending node m addr now h =
      let made = vc_state_for node m.sequence_id addr in
      let answered = view_change_on made.1 m now in
      let counted : Node = record made.0 {
        vc_states = insert m.sequence_id answered.0 made.0.vc_states;
      } in
      let h1 = same-IsSending Q node counted h (unfold vc_state_for in ground arith) in
      Holds-bind (enter_view_change-IsSending counted answered.1 h1)
        λ cleared e h2. announce_new_view-IsSending cleared answered.1 h2

  install_view-IsSending :
      (node : Node) (nv : NewViewMsg)
      → IsSending Q node
      → Holds (install_view node nv) (IsSending Q)
  unfolding install_view
  install_view-IsSending node nv h =
      Holds-bind
        (Holds-from (fill_hole node nv)
          λ filled e. same-IsSending Q node filled h (fill_hole-SameNode node filled nv e).outbound)
        λ filled e h1. Holds-from _ λ viewed e1.
          same-IsSending Q filled viewed h1
            (unfold update_view_id update_epoch_id in ground (arith, e1))

  propose_first-IsSending :
      (env : Env) (node : Node) (nv : NewViewMsg) (primary : NodeInfo) (now : ℕ)
      → IsMade Q env
      → IsSending Q node
      → Holds (propose_first env node nv primary now) (λ r. IsSending Q r.0)
  unfolding propose_first
  propose_first-IsSending env node nv primary now made h =
      Holds-if (text_beq primary.node_id node.my_info.node_id)
        (λ z.
          Holds-bind
            (broadcast-IsSending Q node
              (prepares (
                prepare_msg_making env "Op1" "Client1" node.view.id nv.sequence_id
                  node.my_info.node_id no_seed node.epoch_id now))
              "/prepare" h
              (
                made node.view.id nv.sequence_id node.my_info.node_id no_seed node.epoch_id now,
                refl,
              ))
            λ proposed e h1. Holds-ok h1)
        (λ z. Holds-ok h)

  pub get_new_view-IsSending :
      (env : Env) (node : Node) (nv : NewViewMsg) (addr now : ℕ)
      → IsMade Q env
      → IsSending Q node
      → Holds (get_new_view env node nv addr now) (λ r. IsSending Q r.0)
  unfolding get_new_view
  get_new_view-IsSending env node nv addr now made h =
      let seq = nv.sequence_id in
      Holds-bind (drop_from-IsSending (record node { is_view_changing = true }) seq h)
        λ dropped e h1.
          let h2 =
            same-IsSending Q dropped (register_new_view dropped nv addr) h1
              (unfold register_new_view vc_state_for in ground arith) in
          Holds-bind (install_view-IsSending (register_new_view dropped nv addr) nv h2)
            λ installed e1 h3.
              Holds-bind
                (Holds-any (deref (get_elem? installed.node_table installed.next_candidate_idx)))
                λ primary e2 u.
                  let moved = next_candidate installed seq in
                  let h4 = same-IsSending Q installed moved h3 (ground arith) in
                  Holds-bind
                    (Holds-from {q = λ r. IsSending Q r.0} (start_thread_if_not_exists moved seq)
                      λ r e.
                        same-IsSending Q moved r.0 h4
                          (ground (arith, start_thread_if_not_exists-frame moved r.0 seq r.1 e)))
                    λ r e3 h5.
                      propose_first-IsSending env (record r.0 { is_view_changing = false }) nv
                        primary now made h5
