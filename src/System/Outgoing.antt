-- ===== src/System/Outgoing.antt =====
-- What the handlers of a thread (pbft/network/node.go) put on the way out of the node.
use pa_bft.Base.{
  string_key, int64_key, ℕ, ◌≡◌, ◌⊎◌, inl, inr, ◌==◌, refl, if◌then◌else◌, sub64, rem64, Option,
  none, some, String, add64, arith,
}
use text.Mathlib.Text.{◌==◌ as text_beq}
use pa_bft.Base.Reach.{Holds, Holds-ok, Holds-bind, Holds-any, Holds-from, Holds-if, Holds-send}
use pa_bft.Message.{PrepareMsg, ReqPrepareMsgs, VoteMsg, RequestMsg}
use pa_bft.State.{State, prepare, verify_msg, set_bizantine}
use pa_bft.State.Access.{set_receive_prepare_time}
use pa_bft.Node.{Node, Payload, MsgOut, prepares, votes, collates, view_changes, new_views}
use pa_bft.Node.Primary.{update_view_id, update_epoch_id, get_primary_info_by_id}
use pa_bft.Node.Threads.{
  Env, no_seed, prepare_msg_making, broadcast, report, execute, start_timer, stop_timer,
  start_thread_if_not_exists, broad_cast_next_prepare_msg_if_primary,
}
use pa_bft.Node.Starting.{start_thread_if_not_exists-frame}
use pa_bft.Node.Handlers.{mark_prepared, follow_vote, get_prepare}
use pa_bft.System.Mail.{All, All-append, IfSome}

module _ (Q : PrepareMsg → Type 0) where
  -- A proposal or a vote that goes out concerns a proposal with the property, and every message has the
  -- path of its kind.
  abbrev pub GoesAs : Payload → String → Type 0
  GoesAs (prepares m) path = Q m.prepare_msg × (path ≡ "/prepare")
  GoesAs (votes v) path = IfSome Q v.prepare_msg × (path ≡ "/vote")
  GoesAs (collates c) path = path ≡ "/collate"
  GoesAs (view_changes m) path = path ≡ "/viewchange"
  GoesAs (new_views m) path = path ≡ "/newview"

  abbrev pub IsSending : Node → Type 0
  IsSending node = All (λ (out : MsgOut). GoesAs out.msg out.path) node.msg_outbound.queue

  pub broadcast-IsSending :
      (node : Node) (msg : Payload) (path : String)
      → IsSending node
      → GoesAs msg path
      → Holds (broadcast node msg path) IsSending
  unfolding broadcast
  broadcast-IsSending node msg path h g = Holds-send node.msg_outbound _ _ (λ room. Holds-ok (
      All-append (λ (out : MsgOut). GoesAs out.msg out.path) node.msg_outbound.queue
        (record { ip = node.my_info.url; msg = msg; path = path }) h g))

  -- Every proposal that the node makes has the property.
  abbrev pub IsMade : Env → Type 0
  IsMade env =
      (view_id seq : ℕ) (id : String) (seed epoch_id now : ℕ)
      → Q (prepare_msg_making env "Op1" "Client1" view_id seq id seed epoch_id now).prepare_msg

  -- Where the channel is left alone.
  pub same-IsSending :
      (node node' : Node)
      → IsSending node
      → node'.msg_outbound ≡ node.msg_outbound
      → IsSending node'
  same-IsSending node node' h e = rw e h

  broad_cast_next_prepare_msg_if_primary-IsSending :
      (env : Env) (node : Node) (seq now : ℕ)
      → IsMade env
      → IsSending node
      → Holds (broad_cast_next_prepare_msg_if_primary env node seq now) IsSending
  unfolding broad_cast_next_prepare_msg_if_primary
  broad_cast_next_prepare_msg_if_primary-IsSending env node seq now made h =
      let before = sub64 seq 1 in
      Holds-bind
        (Holds-from (update_view_id node before)
          λ viewed e. same-IsSending node viewed h (unfold update_view_id in ground (arith, e)))
        λ viewed e1 h1.
          let dated = if rem64 before 10 == 0 then update_epoch_id viewed before else viewed in
          let h2 = same-IsSending viewed dated h1 (unfold update_epoch_id in ground arith) in
          Holds-bind (Holds-any (get_primary_info_by_id dated dated.view.id)) λ primary e2 u.
            Holds-if (text_beq primary.node_id dated.my_info.node_id)
              (λ z.
                broadcast-IsSending dated _ "/prepare" h2
                  (made dated.view.id seq dated.my_info.node_id no_seed dated.epoch_id now, refl))
              (λ z. Holds-ok h2)

  follow_vote-IsSending :
      (env : Env) (node : Node) (s : State) (p : PrepareMsg) (v : VoteMsg) (now : ℕ)
      → IsMade env
      → IsSending node
      → IfSome Q v.prepare_msg
      → Holds (follow_vote env node s p v now) (λ r. IsSending r.0)
  unfolding follow_vote
  follow_vote-IsSending env node s p v now made h q =
      Holds-bind
        (broad_cast_next_prepare_msg_if_primary-IsSending env node (add64 p.sequence_id 1) now made
          h)
        λ next e1 h1.
          Holds-bind
            (Holds-from (mark_prepared next p.sequence_id)
              λ marked e. same-IsSending next marked h1 (unfold mark_prepared in ground (arith, e)))
            λ marked e2 h2.
              Holds-bind
                (Holds-from {q = λ r. IsSending r.0}
                  (start_thread_if_not_exists marked (add64 p.sequence_id 1))
                  λ r e. same-IsSending marked r.0 h2 (
                    ground (
                      arith,
                      start_thread_if_not_exists-frame marked r.0 (add64 p.sequence_id 1) r.1 e,
                    )))
                λ r e3 h3.
                  Holds-bind
                    (broadcast-IsSending r.0 (votes (record v { node_id = node.my_info.node_id }))
                      "/vote" h3 (q, refl))
                    λ voted e4 h4. Holds-from _ λ last e.
                      same-IsSending voted last.0 h4
                        (unfold execute stop_timer start_timer in ground (arith, e))

  -- The vote on a proposal is for this proposal, or empty.
  pub prepare-vote :
      (digest : Option RequestMsg → Option String) (s : State) (p : PrepareMsg)
      (r : Option RequestMsg)
      → Q p
      → IfSome Q (prepare digest s p r).1.prepare_msg
  prepare-vote digest s p r q =
      let carried : ((prepare digest s p r).1.prepare_msg ≡ none)
          ⊎ ((prepare digest s p r).1.prepare_msg ≡ some p) =
        unfold prepare verify_msg set_bizantine in ground arith in
      elim carried [ inl e ↦ rw e tt | inr e ↦ rw e q ]

  pub get_prepare-IsSending :
      (env : Env) (node : Node) (s : State) (msgs : ReqPrepareMsgs) (now : ℕ)
      → IsMade env
      → IsSending node
      → Q msgs.prepare_msg
      → Holds (get_prepare env node s msgs now) (λ r. IsSending r.0)
  unfolding get_prepare
  get_prepare-IsSending env node s msgs now made h q =
      let pm = msgs.prepare_msg in
      let s0 = set_receive_prepare_time s now in
      let x = prepare env.digest s0 pm msgs.request_msg in
      Holds-bind
        (Holds-from (report node x.2)
          λ reported e. same-IsSending node reported h (unfold report in ground (arith, e)))
        λ reported e1 h1.
          Holds-if (x.1.sequence_id == 0) (λ z. Holds-ok h1)
            (λ z.
              follow_vote-IsSending env reported x.0 pm x.1 now made h1
                (prepare-vote env.digest s0 pm msgs.request_msg q))
