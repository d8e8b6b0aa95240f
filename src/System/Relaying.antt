-- ===== src/System/Relaying.antt =====
-- Every step of a node (pbft/network/node.go, pbft/network/view.go) puts on the way out what concerns
-- proposals that the node has received or made.
use text.Mathlib.Text.{◌==◌ as text_beq}
use pa_bft.Base.{
  int64_key, ℕ, ◌≡◌, ◌∙◌, refl, ap, inl, inr, Option-cases, Option, some, String, arith,
}
use pa_bft.Base.Chan.{Chan, take}
use pa_bft.Base.Outcome.{ok, bind-returns}
use pa_bft.Base.Reach.{Holds, Holds-ok, Holds-any, Holds-if, Holds-bind, Holds-from, Holds-returned}
use pa_bft.Message.{Message, PrepareMsg, view_change, new_view, req_prepare, voted, collated}
use pa_bft.State.{Error}
use pa_bft.Node.{Node, NodeInfo, MsgOut}
use pa_bft.Node.Expiry.{null_proposal}
use pa_bft.Node.Threads.{Env, report, no_seed, start_thread_if_not_exists}
use pa_bft.Node.Starting.{start_thread_if_not_exists-frame}
use pa_bft.Node.Primary.{update_view_id, update_epoch_id, get_primary_info_by_id}
use pa_bft.Node.Dispatch.{
  deliver, dispatch_entrance, dispatch_view_entrance, hand_to, hand_to_new, resolve_counted,
  resolve_msg,
}
use pa_bft.Server.{
  Wire, receive, sort_msg, enter, enter_view, deattach_signature_msg, send_genesis_msg_if_primary,
}
use pa_bft.Server.Sending.{Link, broadcast_to, send_msg, log_error_msg}
use pa_bft.System.{
  System, Step, receives, dispatches, resolves, handles, ends_prepare, ends_vote, ends_collate,
  executes, sends, prints, begins, marks_late, signals,
}
use pa_bft.System.Viewing.{
  WholeStep, inner, dispatches_view, changes_view_at, installs_view, ends_view_change,
}
use pa_bft.Node.Handlers.{late_mark}
use pa_bft.System.Mail.{All-take}
use pa_bft.System.Outgoing.{IsSending, IsMade, broadcast-IsSending, same-IsSending}
use pa_bft.System.Leaving.{
  handle-IsSending, expire_prepare-IsSending, expire_vote-IsSending, expire_collate-IsSending,
  execute_msg-outbound,
}
use pa_bft.System.Passing.{
  start_view_change-IsSending, get_view_change-IsSending, get_new_view-IsSending,
}
use pa_bft.System.Validity.{IsValid}

pub receive-outbound :
    (w : Wire) (sender : NodeInfo) (node node' : Node) (message : String)
    → receive w sender node message ≡ ok node'
    → node'.msg_outbound ≡ node.msg_outbound
unfolding receive sort_msg enter enter_view deattach_signature_msg
receive-outbound w sender node node' message h = ground arith

hand_to_new-outbound :
    (node node' : Node) (seq : ℕ) (msg : Message)
    → hand_to_new node seq msg ≡ ok node'
    → node'.msg_outbound ≡ node.msg_outbound
unfolding hand_to_new hand_to
hand_to_new-outbound node node' seq msg h =
    let ((threaded, s), rest, e) = bind-returns (start_thread_if_not_exists node seq) _ h in
    ground (arith, start_thread_if_not_exists-frame node threaded seq s e)

resolve_counted-outbound :
    (node node' : Node) (seq : ℕ) (msg : Message)
    → resolve_counted node seq msg ≡ ok node'
    → node'.msg_outbound ≡ node.msg_outbound
unfolding resolve_counted hand_to
resolve_counted-outbound node node' seq msg h =
    ground (arith, hand_to_new-outbound node node' seq msg)

resolve_msg-outbound :
    (node node' : Node) (msg : Message)
    → resolve_msg node msg ≡ ok node'
    → node'.msg_outbound ≡ node.msg_outbound
unfolding resolve_msg
resolve_msg-outbound node node' (req_prepare m) h =
    hand_to_new-outbound node node' _ (req_prepare m) h
resolve_msg-outbound node node' (voted r) h = resolve_counted-outbound node node' _ (voted r) h
resolve_msg-outbound node node' (collated c) h =
    resolve_counted-outbound node node' _ (collated c) h
resolve_msg-outbound node node' (view_change m) h =
    hand_to_new-outbound node node' _ (view_change m) h
resolve_msg-outbound node node' (new_view m) h = hand_to_new-outbound node node' _ (new_view m) h

-- The message that is sent, and what is left.
pub send_msg-takes :
    (l : Link) (node node' : Node) (frame : Option (String × String))
    → send_msg l node ≡ ok (node', frame)
    → (out : MsgOut) × (rest : Chan MsgOut) × (err : Option Error) × (take node.msg_outbound
        ≡ some (out, rest))
      × (broadcast_to l out.ip (l.encode out.msg) out.path ≡ ok (frame, err))
      × (node'.msg_outbound ≡ rest)
unfolding send_msg
send_msg-takes l node node' frame h = elim (Option-cases (take node.msg_outbound)) [
  | inl empty ↦ (let z = rw (empty, send_msg) at h in cc)
  | inr ((out, rest), e) ↦
      let h1 = rw (e, send_msg) at h in
      let ((frame1, err), h2, sent) =
        bind-returns (broadcast_to l out.ip (l.encode out.msg) out.path) _ h1 in
      let (reported, h3, told) =
        bind-returns (report (record node { msg_outbound = rest }) err) _ h2 in
      let same : frame1 ≡ frame = ground (arith, h3) in
      (
        out,
        rest,
        err,
        e,
        sent ∙ ap (λ f. ok (f, err)) same,
        unfold report in ground (arith, h3, told),
      )
]

module _ (P : PrepareMsg → Type 0) where
  send_genesis_msg_if_primary-IsSending :
      (env : Env) (node : Node) (now : ℕ)
      → IsMade P env
      → IsSending P node
      → Holds (send_genesis_msg_if_primary env node now) (IsSending P)
  unfolding send_genesis_msg_if_primary
  send_genesis_msg_if_primary-IsSending env node now made h =
      Holds-bind
        (Holds-from (update_view_id node 0)
          λ viewed e. same-IsSending P node viewed h (unfold update_view_id in ground (arith, e)))
        λ viewed e h1.
          let dated = update_epoch_id viewed 0 in
          let h2 = same-IsSending P viewed dated h1 (unfold update_epoch_id in refl) in
          Holds-bind (Holds-any (get_primary_info_by_id dated dated.view.id)) λ primary e2 u.
            Holds-if (text_beq primary.node_id dated.my_info.node_id)
              (λ z.
                broadcast-IsSending P dated _ "/prepare" h2
                  (made dated.view.id 1 dated.my_info.node_id no_seed dated.epoch_id now, refl))
              (λ z. Holds-ok h2)

  Step-IsSending :
      (env : Env) (w : Wire) (a b : System)
      → IsMade P env
      → ((seq : ℕ) → P (null_proposal seq))
      → Step env w a b
      → IsValid P a
      → IsSending P a.node
      → IsSending P b.node
  Step-IsSending env w a b made null (receives sender message node node' pairs h) v s =
      same-IsSending P node node' s (receive-outbound w sender node node' message h)
  Step-IsSending env w a b made null (dispatches msg rest node node' pairs t h) v s =
      same-IsSending P node node' s (unfold dispatch_entrance deliver in ground (arith, h))
  Step-IsSending env w a b made null (resolves msg rest node node' pairs t h) v s =
      same-IsSending P node node' s
        (resolve_msg-outbound (record node { msg_delivery = rest }) node' msg h)
  Step-IsSending env w a b made null
        (handles seq addr now st st' msg rest node node' pairs end e t cv h) v s =
      let (c, left) = All-take _ st.msg_state rest msg (v.heard.threads seq st e).mail t in
      Holds-returned
        (handle-IsSending P env node (record st { msg_state = rest }) msg addr now cv made s c.1) h
  Step-IsSending env w a b made null (ends_prepare seq st st' node node' pairs e h) v s =
      Holds-returned (expire_prepare-IsSending P env node seq st s (null seq)) h
  Step-IsSending env w a b made null (ends_vote seq st node node' pairs e h) v s =
      Holds-returned (expire_vote-IsSending P env node st s) h
  Step-IsSending env w a b made null (ends_collate seq st node node' pairs e h) v s =
      Holds-returned (expire_collate-IsSending P env node st s) h
  Step-IsSending env w a b made null (executes received rest node node' pairs pairs' t h) v s =
      same-IsSending P node node' s (
        Holds-returned (execute_msg-outbound (record node { msg_execution = rest }) pairs received)
          h)
  Step-IsSending env w a b made null (sends l node node' pairs frame h) v s =
      let (out, rest, err, t, sent, left) = send_msg-takes l node node' frame h in
      let (went, kept) = All-take _ node.msg_outbound rest out s t in rw left kept
  Step-IsSending env w a b made null (prints left left' node node' pairs events h) v s =
      same-IsSending P node node' s (unfold log_error_msg in ground (arith, h))
  Step-IsSending env w a b made null (begins now node node' pairs h) v s =
      Holds-returned (send_genesis_msg_if_primary-IsSending env node now made s) h
  Step-IsSending env w a b made null (marks_late seq st node node' pairs e one h) v s =
      same-IsSending P node node' s (unfold late_mark in ground (arith, h))
  Step-IsSending env w a b made null (signals seq st st' node pairs e t) v s = s

  pub WholeStep-IsSending :
      (env : Env) (w : Wire) (a b : System)
      → IsMade P env
      → ((seq : ℕ) → P (null_proposal seq))
      → WholeStep env w a b
      → IsValid P a
      → IsSending P a.node
      → IsSending P b.node
  WholeStep-IsSending env w a b made null (inner x y step) v s =
      Step-IsSending env w x y made null step v s
  WholeStep-IsSending env w a b made null (dispatches_view msg rest node node' pairs t h) v s =
      same-IsSending P node node' s (unfold dispatch_view_entrance deliver in ground (arith, h))
  WholeStep-IsSending env w a b made null
        (changes_view_at seq addr now st m rest node node' pairs e t h) v s =
      Holds-returned (get_view_change-IsSending P _ m addr now s) h
  WholeStep-IsSending env w a b made null
        (installs_view seq addr now st m rest node node' pairs end e t h) v s =
      Holds-returned (get_new_view-IsSending P env _ m addr now made s) h
  WholeStep-IsSending env w a b made null (ends_view_change seq st node node' pairs e h) v s =
      Holds-returned (start_view_change-IsSending P node st.sequence_id s) h
