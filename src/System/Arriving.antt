-- ===== src/System/Arriving.antt =====
-- Receiving, dispatching, sending and printing (pbft/network/node.go, pbft/network/proxy_server.go)
-- keep what the channels and threads of the node hold.
use text.Mathlib.Text.{◌==◌ as text_beq}
use pa_bft.Base.{arith, int64_key, ℕ, ◌==◌, ◌≡◌, true, String, Option, some, List}
use pa_bft.Base.Outcome.{ok}
use pa_bft.Base.Reach.{Holds, Holds-ok, Holds-from, Holds-bind, Holds-deref, Holds-if, Holds-send}
use pa_bft.Message.{Message, PrepareMsg, req_prepare, voted, collated, view_change, new_view}
use pa_bft.State.{State}
use pa_bft.Node.{Node, NodeInfo}
use pa_bft.Node.Threads.{report}
use pa_bft.Node.Dispatch.{deliver, dispatch_entrance}
use pa_bft.Node.Expiry.{null_proposal}
use pa_bft.Node.Filling.{empty_proposal}
use pa_bft.Server.{Wire, deattach_signature_msg, sort_msg, receive, enter, enter_view}
use pa_bft.Server.Signing.{SignatureMsg}
use pa_bft.System.{starts, stops, exits_timers, exits_messages, Signal}
use pa_bft.Server.Sending.{Link, LogEvent, send_msg, log_error_msg}
use pa_bft.System.Mail.{All-append, Carries, IsVoteFor, IsThread, IsHeard}

module _ (P : PrepareMsg → Type 0) where
  -- The property is one of every proposal that the node reads, and of those that it makes up when none
  -- has come.
  pub record IsOfAll (w : Wire) : Type 0 where
    pub in_prepares : (text : String) (p : PrepareMsg) → (w.read_prepare text).1 ≡ some p → P p
    pub in_votes : (text : String) → IsVoteFor P (w.read_vote text)
    pub in_null : (seq : ℕ) → P (null_proposal seq)
    pub in_empty : (node : Node) (seq : ℕ) → P (empty_proposal node seq)

  enter-IsHeard :
      (node : Node) (msg : Message)
      → IsHeard P node
      → Carries P msg
      → Holds (enter node msg) (IsHeard P)
  unfolding enter
  enter-IsHeard node msg h c = Holds-send node.msg_entrance _ _ λ room. Holds-ok (record {
    entrance = All-append (Carries P) node.msg_entrance.queue msg h.entrance c;
    delivery = h.delivery;
    execution = h.execution;
    threads = h.threads;
    log = h.log;
    views = h.views;
  })

  enter_view-IsHeard :
      (node : Node) (msg : Message)
      → IsHeard P node
      → Carries P msg
      → Holds (enter_view node msg) (IsHeard P)
  unfolding enter_view
  enter_view-IsHeard node msg h c = Holds-send node.view_msg_entrance _ _ λ room. Holds-ok (record {
    entrance = h.entrance;
    views = All-append (Carries P) node.view_msg_entrance.queue msg h.views c;
    delivery = h.delivery;
    execution = h.execution;
    threads = h.threads;
    log = h.log;
  })

  -- What is read off one message has the property.
  abbrev pub IsFair : Wire → SignatureMsg → Type 0
  IsFair w raw =
      (text_beq raw.msg_type "/prepare" ≡ true
        → (p : PrepareMsg) → (w.read_prepare raw.marshalled_msg).1 ≡ some p
        → P p)
      × (text_beq raw.msg_type "/vote" ≡ true → IsVoteFor P (w.read_vote raw.marshalled_msg))

  sort_msg-IsHeard :
      (w : Wire) (node : Node) (raw : SignatureMsg)
      → IsFair w raw
      → IsHeard P node
      → Holds (sort_msg w node raw) (IsHeard P)
  unfolding sort_msg
  sort_msg-IsHeard w node raw fair h =
      let kind = raw.msg_type in
      let text = raw.marshalled_msg in
      Holds-if (text_beq kind "/prepare")
        (λ z. Holds-bind (Holds-deref (w.read_prepare text).1) λ p e there.
          Holds-if (p.sequence_id == 0) (λ z1. Holds-ok h)
            (λ z1.
              enter-IsHeard node
                (req_prepare (record { request_msg = (w.read_prepare text).0; prepare_msg = p })) h
                (fair.0 z p there)))
        (λ z.
          Holds-if (text_beq kind "/vote")
            (λ z1.
              Holds-if ((w.read_vote text).msg.sequence_id == 0) (λ z2. Holds-ok h)
                (λ z2. enter-IsHeard node (voted (w.read_vote text)) h (fair.1 z1)))
            (λ z1.
              Holds-if (text_beq kind "/collate")
                (λ z2.
                  Holds-if ((w.read_collate text).sequence_id == 0) (λ z3. Holds-ok h)
                    (λ z3. enter-IsHeard node (collated (w.read_collate text)) h tt))
                (λ z2.
                  Holds-if (text_beq kind "/viewchange")
                    (λ z3. enter_view-IsHeard node (view_change (w.read_view_change text)) h tt)
                    (λ z3.
                      Holds-if (text_beq kind "/newview")
                        (λ z4. enter_view-IsHeard node (new_view (w.read_new_view text)) h tt)
                        (λ z4. Holds-ok h)))))

  pub receive_fair-IsHeard :
      (w : Wire) (sender : NodeInfo) (node : Node) (message : String)
      → IsFair w (w.unpack message)
      → IsHeard P node
      → Holds (receive w sender node message) (IsHeard P)
  unfolding receive
  receive_fair-IsHeard w sender node message fair h =
      Holds-bind
        (Holds-from {q = λ got. got.0 ≡ w.unpack message} (deattach_signature_msg w sender message)
          λ got e. unfold deattach_signature_msg in ground (arith, e))
        λ got e same. sort_msg-IsHeard w node got.0 (rw same fair) h

  pub receive-IsHeard :
      (w : Wire) (sender : NodeInfo) (node : Node) (message : String)
      → IsOfAll w
      → IsHeard P node
      → Holds (receive w sender node message) (IsHeard P)
  receive-IsHeard w sender node message all h =
      let text = (w.unpack message).marshalled_msg in
      receive_fair-IsHeard w sender node message
        (λ z p there. all.in_prepares text p there, λ z. all.in_votes text) h

  pub dispatch_entrance-IsHeard :
      (node : Node) (msg : Message)
      → IsHeard P node
      → Carries P msg
      → Holds (dispatch_entrance node msg) (IsHeard P)
  unfolding dispatch_entrance deliver
  dispatch_entrance-IsHeard node msg h c =
      Holds-if node.is_view_changing (λ z. Holds-ok h)
        (λ z. Holds-send node.msg_delivery _ _ λ room. Holds-ok (record {
          entrance = h.entrance;
          delivery = All-append (Carries P) node.msg_delivery.queue msg h.delivery c;
          execution = h.execution;
          threads = h.threads;
          log = h.log;
          views = h.views;
        }))

  pub send_msg-IsHeard :
      (l : Link) (node node' : Node) (frame : Option (String × String))
      → send_msg l node ≡ ok (node', frame)
      → IsHeard P node
      → IsHeard P node'
  unfolding send_msg report
  send_msg-IsHeard l node node' frame h v =
      let same : node'
          ≡ record node { msg_outbound = node'.msg_outbound; msg_error = node'.msg_error } =
        ground arith in
      rw same v

  pub log_error_msg-IsHeard :
      (node node' : Node) (left left' : ℕ) (events : List LogEvent)
      → log_error_msg node left ≡ ok (node', left', events)
      → IsHeard P node
      → IsHeard P node'
  unfolding log_error_msg
  log_error_msg-IsHeard node node' left left' events h v =
      let same : node' ≡ record node { msg_error = node'.msg_error } = ground arith in rw same v

  pub Signal-IsThread :
      (seq : ℕ) (s s' : State) → Signal s s' → IsThread P seq s → IsThread P seq s'
  Signal-IsThread seq s s' (starts r name rest e) t = t
  Signal-IsThread seq s s' (stops r name rest e) t = t
  Signal-IsThread seq s s' (exits_timers r word rest e) t = t
  Signal-IsThread seq s s' (exits_messages r word rest e) t = t
