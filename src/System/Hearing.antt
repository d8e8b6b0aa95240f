-- ===== src/System/Hearing.antt =====
-- The pieces that the handlers call (pbft/network/node.go) keep what the channels and threads hold.
use pa_bft.Base.{
  Bool, true, false, if◌then◌else◌, rem64, sub64, ◌==◌, int64_key, ℕ, ◌≡◌, refl, String, Option,
  none, some, add64,
}
use pa_bft.Base.Map.{lookup, insert}
use pa_bft.Base.Values.{AllValues-insert}
use pa_bft.Base.Reach.{
  Holds, Holds-bind, Holds-if, Holds-any, Holds-panic, Holds-ok, Holds-elim, Holds-send,
}
use pa_bft.Message.{req_prepare, voted, collated, view_change, new_view, Message, PrepareMsg}
use pa_bft.State.{State, Error, create_state}
use text.Mathlib.Text.{◌==◌ as text_beq}
use pa_bft.Node.{Node, Payload, prepares, in_array, write}
use pa_bft.Node.Primary.{update_view_id, update_epoch_id, get_primary_info_by_id}
use pa_bft.Node.Threads.{
  prepare_msg_making, no_seed, Env, create_state_for, broadcast, report, execute, start_timer,
  stop_timer, start_thread_if_not_exists, broad_cast_next_prepare_msg_if_primary,
}
use pa_bft.Node.Handlers.{committed_at, late_mark, mark_prepared}
use pa_bft.Node.Dispatch.{hand_to, hand_to_new, resolve_counted, resolve_msg}
use pa_bft.System.Mail.{All-append, number_of, IfSome, Carries, IsThread, IsHeard}

module _ (P : PrepareMsg → Type 0) where
  pub broadcast-IsHeard :
      (node : Node) (msg : Payload) (path : String)
      → IsHeard P node
      → Holds (broadcast node msg path) (IsHeard P)
  unfolding broadcast
  broadcast-IsHeard node msg path h = Holds-send node.msg_outbound _ _ (λ room. Holds-ok h)

  pub report-IsHeard :
      (node : Node) (e : Option Error) → IsHeard P node → Holds (report node e) (IsHeard P)
  unfolding report
  report-IsHeard node none h = Holds-ok h
  report-IsHeard node (some e) h = Holds-send node.msg_error _ _ (λ room. Holds-ok h)

  pub execute-IsHeard :
      (node : Node) (p : Option PrepareMsg)
      → IsHeard P node
      → IfSome P p
      → Holds (execute node p) (IsHeard P)
  unfolding execute
  execute-IsHeard node p h hp = Holds-send node.msg_execution _ _ (λ room. Holds-ok (record {
    entrance = h.entrance;
    delivery = h.delivery;
    execution = All-append (IfSome P) node.msg_execution.queue p h.execution hp;
    threads = h.threads;
    log = h.log;
    views = h.views;
  }))

  pub start_timer-IsThread :
      (seq : ℕ) (s : State) (phase : String)
      → IsThread P seq s
      → Holds (start_timer s phase) (IsThread P seq)
  unfolding start_timer
  start_timer-IsThread seq s phase h = Holds-send s.timer_start_ch _ _ (λ room. Holds-ok h)

  pub stop_timer-IsThread :
      (seq : ℕ) (s : State) (phase : String)
      → IsThread P seq s
      → Holds (stop_timer s phase) (IsThread P seq)
  unfolding stop_timer
  stop_timer-IsThread seq s phase h = Holds-send s.timer_stop_ch _ _ (λ room. Holds-ok h)

  -- Where one thread changes.
  pub IsHeard-thread :
      (node : Node) (seq : ℕ) (s : State)
      → IsHeard P node
      → IsThread P seq s
      → IsHeard P (record node { states = insert seq s node.states })
  IsHeard-thread node seq s h t = record {
    entrance = h.entrance;
    delivery = h.delivery;
    execution = h.execution;
    threads = AllValues-insert (IsThread P) seq s node.states h.threads t;
    log = h.log;
    views = h.views;
  }

  create_state_for-IsThread : (node : Node) (seq : ℕ) → IsThread P seq (create_state_for node seq)
  unfolding create_state_for create_state lookup
  create_state_for-IsThread node seq = record {
    numbered = refl;
    mail = tt;
    proposal = tt;
    votes = λ k v e. cc;
  }

  pub start_thread_if_not_exists-IsHeard :
      (node : Node) (seq : ℕ)
      → IsHeard P node
      → Holds (start_thread_if_not_exists node seq) (λ r. IsHeard P r.0 × IsThread P seq r.1)
  unfolding start_thread_if_not_exists
  start_thread_if_not_exists-IsHeard node seq h =
      Holds-elim (lookup seq node.states)
        (λ e.
          Holds-bind
            (start_timer-IsThread seq (create_state_for node seq) "Prepare"
              (create_state_for-IsThread node seq))
            (λ s made t. Holds-ok (IsHeard-thread node seq s h t, t)))
        (λ s e. Holds-ok (h, h.threads seq s e))

  hand_to-IsHeard :
      (node : Node) (seq : ℕ) (s : State) (msg : Message)
      → IsHeard P node
      → IsThread P seq s
      → number_of msg ≡ seq
      → Carries P msg
      → Holds (hand_to node seq s msg) (IsHeard P)
  unfolding hand_to
  hand_to-IsHeard node seq s msg h t e c = Holds-send s.msg_state _ _ (λ room. Holds-ok (
      IsHeard-thread node seq _ h (record {
        numbered = t.numbered;
        mail = All-append _ s.msg_state.queue msg t.mail (e, c);
        proposal = t.proposal;
        votes = t.votes;
      })))

  hand_to_new-IsHeard :
      (node : Node) (seq : ℕ) (msg : Message)
      → IsHeard P node
      → number_of msg ≡ seq
      → Carries P msg
      → Holds (hand_to_new node seq msg) (IsHeard P)
  unfolding hand_to_new
  hand_to_new-IsHeard node seq msg h e c =
      Holds-bind (start_thread_if_not_exists-IsHeard node seq h)
        (λ r made both. hand_to-IsHeard r.0 seq r.1 msg both.0 both.1 e c)

  resolve_counted-IsHeard :
      (node : Node) (seq : ℕ) (msg : Message)
      → IsHeard P node
      → number_of msg ≡ seq
      → Carries P msg
      → Holds (resolve_counted node seq msg) (IsHeard P)
  unfolding resolve_counted
  resolve_counted-IsHeard node seq msg h e c =
      Holds-bind (Holds-any (committed_at node seq)) (λ done got u.
        Holds-if (done == 1) (λ z. Holds-ok h)
          (λ z.
            Holds-elim (lookup seq node.states)
              (λ none_there.
                Holds-if (seq == 1) (λ first. Holds-ok h)
                  (λ z. hand_to_new-IsHeard node seq msg h e c))
              (λ s there. hand_to-IsHeard node seq s msg h (h.threads seq s there) e c)))

  pub resolve_msg-IsHeard :
      (node : Node) (msg : Message)
      → IsHeard P node
      → Carries P msg
      → Holds (resolve_msg node msg) (IsHeard P)
  unfolding resolve_msg
  resolve_msg-IsHeard node (req_prepare m) h c = hand_to_new-IsHeard node _ (req_prepare m) h refl c
  resolve_msg-IsHeard node (voted r) h c = resolve_counted-IsHeard node _ (voted r) h refl c
  resolve_msg-IsHeard node (collated r) h c = resolve_counted-IsHeard node _ (collated r) h refl c
  resolve_msg-IsHeard node (view_change m) h c = hand_to_new-IsHeard node _ (view_change m) h refl c
  resolve_msg-IsHeard node (new_view m) h c = hand_to_new-IsHeard node _ (new_view m) h refl c

  pub update_view_id-IsHeard :
      (node : Node) (number : ℕ) → IsHeard P node → Holds (update_view_id node number) (IsHeard P)
  unfolding update_view_id
  update_view_id-IsHeard node number h =
      Holds-bind (Holds-any (get_primary_info_by_id node (rem64 number 10)))
        λ primary e u. Holds-ok h

  dated-IsHeard :
      (tenth : Bool) (node : Node) (number : ℕ)
      → IsHeard P node
      → IsHeard P (if tenth then update_epoch_id node number else node)
  unfolding update_epoch_id
  dated-IsHeard true node number h = h
  dated-IsHeard false node number h = h

  pub broad_cast_next_prepare_msg_if_primary-IsHeard :
      (env : Env) (node : Node) (number now : ℕ)
      → IsHeard P node
      → Holds (broad_cast_next_prepare_msg_if_primary env node number now) (IsHeard P)
  unfolding broad_cast_next_prepare_msg_if_primary
  broad_cast_next_prepare_msg_if_primary-IsHeard env node number now h =
      let before = sub64 number 1 in
      Holds-bind (update_view_id-IsHeard node before h) λ viewed e h1.
        let dated = if rem64 before 10 == 0 then update_epoch_id viewed before else viewed in
        let h2 = dated-IsHeard (rem64 before 10 == 0) viewed before h1 in
        Holds-bind (Holds-any (get_primary_info_by_id dated dated.view.id)) λ primary e1 u.
          Holds-if (text_beq primary.node_id dated.my_info.node_id)
            (λ z.
              broadcast-IsHeard dated
                (prepares (
                  prepare_msg_making env "Op1" "Client1" dated.view.id number dated.my_info.node_id
                    no_seed dated.epoch_id now))
                "/prepare" h2)
            (λ z. Holds-ok h2)

  marked-IsHeard :
      (new : Bool) (node : Node) (prepared : ℕ → ℕ)
      → IsHeard P node
      → IsHeard P (if new then record node { prepared = prepared } else node)
  marked-IsHeard true node prepared h = h
  marked-IsHeard false node prepared h = h

  pub late_mark-IsHeard :
      (node : Node) (seq : ℕ) → IsHeard P node → Holds (late_mark node seq) (IsHeard P)
  unfolding late_mark
  late_mark-IsHeard node seq h =
      Holds-if (in_array seq)
        (λ z.
          Holds-ok
            (marked-IsHeard true node (write node.prepared seq (add64 (node.prepared seq) 1)) h))
        (λ z. Holds-panic)

  pub mark_prepared-IsHeard :
      (node : Node) (seq : ℕ) → IsHeard P node → Holds (mark_prepared node seq) (IsHeard P)
  unfolding mark_prepared
  mark_prepared-IsHeard node seq h =
      Holds-if (in_array seq) (λ z. Holds-ok (marked-IsHeard (node.prepared seq == 0) node _ h))
        (λ z. Holds-panic)
