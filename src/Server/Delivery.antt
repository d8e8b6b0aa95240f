-- ===== src/Server/Delivery.antt =====
-- From attachSignatureMsg at one node to receiveLoop at another (pbft/network/proxy_server.go).
use pa_bft.Base.{ℕ, ◌≡◌, ◌∙◌, ◌≢◌, refl, ap, String, none, some, [], ◌∷◌, true, false, arith}
use pa_bft.Base.Outcome.{ok, ◌>>=◌, bind-ok}
use pa_bft.Message.{VoteMsgs, CollateMsg, Message, req_prepare, voted, collated}
use pa_bft.Node.{Node, NodeInfo, Payload, prepares, votes, collates, view_changes, new_views}
use pa_bft.Server.Signing.{SignatureMsg, sign, verify}
use pa_bft.Server.{Wire, sort_msg, receive, enter, deattach_signature_msg}
use pa_bft.Server.Sending.{Link, zero_signature_msg, attach_signature_msg}

-- A collate message without the addresses of its votes, which decoding makes anew.
abbrev pub forget_votes : VoteMsgs → VoteMsgs
forget_votes [] = []
forget_votes ((id, none) ∷ rest) = (id, none) ∷ forget_votes rest
forget_votes ((id, some r) ∷ rest) = (id, some (record r { addr = 0 })) ∷ forget_votes rest

abbrev pub forget : CollateMsg → CollateMsg
forget c = record c { received_vote_msg = forget_votes c.received_vote_msg }

-- The message that is read off a frame has the content of the payload that was sent.
abbrev pub SameContent : Payload → Message → Type 0
SameContent (prepares m) (req_prepare m') = m' ≡ m
SameContent (votes v) (voted r) = r.msg ≡ v
SameContent (collates c) (collated c') = forget c' ≡ forget c
SameContent _ _ = ⊥

-- The sequence number of a payload, for the messages of a round.
abbrev pub round_of : Payload → ℕ
round_of (prepares m) = m.prepare_msg.sequence_id
round_of (votes v) = v.sequence_id
round_of (collates c) = c.sequence_id
round_of _ = 0

-- The path that goes with a payload.
abbrev pub path_of : Payload → String
path_of (prepares m) = "/prepare"
path_of (votes v) = "/vote"
path_of (collates c) = "/collate"
path_of _ = ""

abbrev pub signed : ℕ → ℕ → String → String → String → SignatureMsg
signed r s signature text path = record {
  signature = signature;
  r = some r;
  s = some s;
  msg_type = path;
  marshalled_msg = text;
}

-- What a text is read as, for the payload that it is the encoding of.
abbrev pub ReadsAs : Wire → String → Payload → Type 0
ReadsAs w text (prepares m) = w.read_prepare text ≡ (m.request_msg, some m.prepare_msg)
ReadsAs w text (votes v) = (w.read_vote text).msg ≡ v
ReadsAs w text (collates c) = forget (w.read_collate text) ≡ forget c
ReadsAs w text _ = ⊥

-- JSON decodes what it has encoded, for this payload and for its signed message; the votes that are
-- read have addresses of their own. What ECDSA signs at the sender, it finds right at the receiver,
-- under the key that the receiver has of the sender.
pub record Speaks (l : Link) (w : Wire) (sender : NodeInfo) (p : Payload) : Type 0 where
  pub packed :
      (r s : ℕ) (signature : String)
      → sign l.ecdsa (l.encode p) ≡ ok (some (r, s, signature))
      → w.unpack (l.pack (signed r s signature (l.encode p) (path_of p)))
        ≡ signed r s signature (l.encode p) (path_of p)
  pub empty : w.unpack (l.pack zero_signature_msg) ≡ zero_signature_msg
  pub parses : (m : SignatureMsg) → w.fails (l.pack m) ≡ false
  pub reads : ReadsAs w (l.encode p) p
  pub keyed :
      (r s : ℕ) (signature : String)
      → sign l.ecdsa (l.encode p) ≡ ok (some (r, s, signature))
      → verify w.ecdsa sender.pub_key (some r) (some s) (l.encode p) ≡ ok true

attach_signature_msg-signed :
    (l : Link) (text path signature : String) (r s : ℕ)
    → sign l.ecdsa text ≡ ok (some (r, s, signature))
    → attach_signature_msg l text path ≡ ok (l.pack (signed r s signature text path))
unfolding attach_signature_msg
attach_signature_msg-signed l text path signature r s h = rw h refl

attach_signature_msg-unsigned :
    (l : Link) (text path : String)
    → sign l.ecdsa text ≡ ok none
    → attach_signature_msg l text path ≡ ok (l.pack zero_signature_msg)
unfolding attach_signature_msg
attach_signature_msg-unsigned l text path h = rw h refl

-- A signed payload whose text is read as it was written goes into the entrance.
sort_msg-payload :
    (w : Wire) (node : Node) (p : Payload) (text signature : String) (r s : ℕ)
    → ReadsAs w text p
    → round_of p ≢ 0
    → (m : Message) × SameContent p m
      × (sort_msg w node (signed r s signature text (path_of p)) ≡ enter node m)
unfolding sort_msg
sort_msg-payload w node (prepares m) text signature r s h n =
    (req_prepare m, refl, rw h (ground (arith, n)))
sort_msg-payload w node (votes v) text signature r s h n =
    (voted (w.read_vote text), h, ground (arith, h, n))
sort_msg-payload w node (collates c) text signature r s h n =
    let number : (w.read_collate text).sequence_id ≡ c.sequence_id = ap (λ x. x.sequence_id) h in
    (collated (w.read_collate text), h, ground (arith, number, n))
sort_msg-payload w node (view_changes m) text signature r s h n = absurd (n refl)
sort_msg-payload w node (new_views m) text signature r s h n = absurd (n refl)

deattach_signature_msg-read :
    (w : Wire) (sender : NodeInfo) (message : String) (raw : SignatureMsg)
    → w.fails message ≡ false
    → w.unpack message ≡ raw
    → deattach_signature_msg w sender message ≡ (
        verify w.ecdsa sender.pub_key raw.r raw.s raw.marshalled_msg >>= λ right.
        ok (raw, true, right))
unfolding deattach_signature_msg
deattach_signature_msg-read w sender message raw h e = rw h (rw e refl)

-- What one node signs and wraps, another unwraps and finds rightly signed, and its receive loop puts it
-- into the entrance with the content that was sent, if it is a proposal, a vote or a collate message
-- whose sequence number is not 0. Where the signing fails, no error is reported: an empty frame is sent,
-- and the receiver goes on without it, provided that its check of a missing R and S returns.
pub receive-attach_signature_msg :
    (l : Link) (w : Wire) (sender : NodeInfo) (node : Node) (p : Payload)
    → Speaks l w sender p
    → round_of p ≢ 0
    → let text = l.encode p in
      ((r s : ℕ) (signature : String)
        → sign l.ecdsa text ≡ ok (some (r, s, signature))
        → (frame : String) × (attach_signature_msg l text (path_of p) ≡ ok frame)
          × (deattach_signature_msg w sender frame
              ≡ ok (signed r s signature text (path_of p), true, true))
          × (m : Message) × SameContent p m
          × (receive w sender node frame ≡ enter node m))
      × (sign l.ecdsa text ≡ ok none
          → (frame : String) × (attach_signature_msg l text (path_of p) ≡ ok frame)
            × (receive w sender node frame
                ≡ (do right ← verify w.ecdsa sender.pub_key none none ""; ok node)))
unfolding receive sort_msg
receive-attach_signature_msg l w sender node p sp n = (
  λ r s signature h.
      let text = l.encode p in
      let raw = signed r s signature text (path_of p) in
      let frame = l.pack raw in
      let split : deattach_signature_msg w sender frame ≡ ok (raw, true, true) =
        deattach_signature_msg-read w sender frame raw (sp.parses raw) (sp.packed r s signature h)
        ∙ ap (λ v. v >>= λ right. ok (raw, true, right)) (sp.keyed r s signature h) in
      let (m, same, sorted) = sort_msg-payload w node p text signature r s sp.reads n in
      (
        frame,
        attach_signature_msg-signed l text (path_of p) signature r s h,
        split,
        m,
        same,
        bind-ok _ (raw, true, true) _ split sorted,
      ),
  λ h.
      let frame = l.pack zero_signature_msg in
      let split =
        deattach_signature_msg-read w sender frame zero_signature_msg (sp.parses zero_signature_msg)
          sp.empty in
      (frame, attach_signature_msg-unsigned l (l.encode p) (path_of p) h, rw split (ground arith)),
)
