-- ===== src/System/Integrity.antt =====
-- No node of a network executes a proposal that no node has made (pbft/network/node.go,
-- pbft/network/proxy_server.go).
use pa_bft.Base.{
  int64_key, ℕ, ◌≡◌, ◌==◌, inl, inr, ◌∙◌, ap, Bool-cases, String, Option, none, some, List, [], ◌∷◌,
  ◌++◌, Within, arith,
}
use mathlib.Core.Path.{subst}
use pa_bft.Base.Map.{lookup}
use pa_bft.Base.Outcome.{ok, bind-returns}
use pa_bft.Base.Reach.{Holds-returned}
use pa_bft.Message.{PrepareMsg}
use pa_bft.Node.{Node, NodeInfo, Payload}
use pa_bft.Node.Primary.{update_view_id}
use pa_bft.Node.Threads.{Env}
use pa_bft.Server.{Wire, new_node}
use pa_bft.Server.Sending.{Link, attach_signature_msg, broadcast_to, send_msg}
use pa_bft.State.{State, Error}
use pa_bft.System.{System}
use pa_bft.System.Mail.{All, All-++, All-replace, All-take}
use pa_bft.System.Answering.{IsRange}
use pa_bft.System.Arriving.{IsFair, receive_fair-IsHeard, send_msg-IsHeard}
use pa_bft.System.Outgoing.{GoesAs, IsSending, IsMade, same-IsSending}
use pa_bft.System.Relaying.{WholeStep-IsSending, send_msg-takes, receive-outbound}
use pa_bft.System.Validity.{IsValid}
use pa_bft.System.Renewing.{IsOfMakeUp, WholeStep-IsValid}
use pa_bft.System.Origin.{new_node-IsHeard}
use pa_bft.System.Lingering.{leaving}
use pa_bft.System.Lasting.{IsGone, leaving-AreGone, Lingers-AreSound}
use pa_bft.System.Silence.{is_local-WholeHearsFair}
use pa_bft.System.Network.{
  Network, NetStep, NetRun, put, add_frame, works, lingers, speaks, hears, rests, goes,
}

-- A node as NewNode makes it.
abbrev pub IsNew : System → Type 0
IsNew sys =
    (info : NodeInfo) × (table : List NodeInfo) × (seeds : List (List NodeInfo)) × (view_id : ℕ)
    × (new_node info table seeds view_id ≡ ok sys.node)
    × (sys.pairs ≡ [])

broadcast_to-frame :
    (l : Link) (ip msg path url text : String) (err : Option Error)
    → broadcast_to l ip msg path ≡ ok (some (url, text), err)
    → attach_signature_msg l msg path ≡ ok text
unfolding broadcast_to
broadcast_to-frame l ip msg path url text err h =
    let (made, rest, e) = bind-returns (attach_signature_msg l msg path) _ h in
    e ∙ ap (λ t. ok t) (ground (arith, rest))

-- What holds of the new one and of all others.
put_keeps :
    {A : Type 0} (q : A → Type 0) (i : ℕ) (new : A) (at : ℕ → A)
    → q new
    → ((j : ℕ) → q (at j))
    → (j : ℕ) → q (put i new at j)
put_keeps q i new at h old j = elim (Bool-cases (i == j)) [
  | inl here ↦ rw here h
  | inr other ↦ rw other (old j)
]

module _ (P : PrepareMsg → Type 0) where
  -- A message with the property is read as one: JSON makes no proposals up.
  abbrev pub Conveys : Link → Wire → Type 0
  Conveys l w =
      (payload : Payload) (path frame : String)
      → GoesAs P payload path
      → attach_signature_msg l (l.encode payload) path ≡ ok frame
      → IsFair P w (w.unpack frame)

  module _ (env : ℕ → Env) (wire : ℕ → Wire) (link : ℕ → Link) where
    -- What is asked of the nodes: what they make has the property, and they understand one another.
    pub record AreFair : Type 0 where
      pub range : (i : ℕ) → IsRange (env i).first
      pub made : (i : ℕ) → IsMade P (env i)
      pub made_up : IsOfMakeUp P
      pub conveys : (i j : ℕ) → Conveys (link i) (wire j)

    record IsClean (net : Network) : Type 0 where
      valid : (i : ℕ) → IsValid P (net.at i)
      sending : (i : ℕ) → IsSending P (net.at i).node
      framed :
          (frame : String)
          → Within frame net.frames
          → (j : ℕ) → IsFair P (wire j) ((wire j).unpack frame)
      lasting : (i : ℕ) → All (IsGone P) (net.gone i)

    -- One node changes, and its dropped threads.
    put-IsClean :
        (net : Network) (i : ℕ) (sys : System) (gone : List (ℕ × State))
        → IsClean net
        → IsValid P sys
        → IsSending P sys.node
        → All (IsGone P) gone
        → IsClean (record net { at = put i sys net.at; gone = put i gone net.gone })
    put-IsClean net i sys gone c v s g = record {
      valid = put_keeps (IsValid P) i sys net.at v c.valid;
      sending = put_keeps (λ r. IsSending P r.node) i sys net.at s c.sending;
      framed = c.framed;
      lasting = put_keeps (All (IsGone P)) i gone net.gone g c.lasting;
    }

    sent-IsFair :
        (l : Link) (w : Wire) (node node' : Node) (frames : List String)
        (frame : Option (String × String)) (f : String)
        → Conveys l w
        → IsSending P node
        → send_msg l node ≡ ok (node', frame)
        → ((g : String) → Within g frames → IsFair P w (w.unpack g))
        → Within f (add_frame frame frames)
        → IsFair P w (w.unpack f)
    sent-IsFair l w node node' frames none f conveys s h old here = old f here
    sent-IsFair l w node node' frames (some (url, text)) f conveys s h old (inr before) =
        old f before
    sent-IsFair l w node node' frames (some (url, text)) f conveys s h old (inl new) =
        let (out, rest, err, t, sent, left) = send_msg-takes l node node' (some (url, text)) h in
        let (went, kept) = All-take _ node.msg_outbound rest out s t in
        let made = broadcast_to-frame l out.ip (l.encode out.msg) out.path url text err sent in
        rw new (conveys out.msg out.path text went made)

    NetStep-IsClean : (a b : Network) → AreFair → NetStep env wire link a b → IsClean a → IsClean b
    NetStep-IsClean a b fair (works net i sys step here) c =
        put-IsClean net i sys (leaving step ++ net.gone i) c
          (WholeStep-IsValid P (env i) (wire i) (net.at i) sys (fair.range i) fair.made_up step
            (is_local-WholeHearsFair P (env i) (wire i) (net.at i) sys step here) (c.valid i))
          (WholeStep-IsSending P (env i) (wire i) (net.at i) sys (fair.made i) fair.made_up.null
            step (c.valid i) (c.sending i))
          (All-++ (IsGone P) (leaving step) (net.gone i)
            (leaving-AreGone P (env i) (wire i) (net.at i) sys step (c.valid i)) (c.lasting i))
    NetStep-IsClean a b fair (lingers net i seq s s' node' before after more e step) c =
        let (one, put_back) =
          All-replace (IsGone P) before (seq, s) (seq, s') after
            (subst (All (IsGone P)) e (c.lasting i)) in
        let k =
          Lingers-AreSound P (env i) seq (net.at i).node s node' s' more (fair.range i)
            (fair.made i) fair.made_up step (c.valid i).heard (c.sending i) one in
        put-IsClean net i (record (net.at i) { node = node' })
          (more ++ (before ++ (seq, s') ∷ after)) c
          (record { heard = k.heard; waiting = (c.valid i).waiting }) k.sending
          (All-++ (IsGone P) more (before ++ (seq, s') ∷ after) k.dropped (put_back k.thread))
    NetStep-IsClean a b fair (speaks net i node' frame h) c =
        let (out, rest, err, t, sent, left) =
          send_msg-takes (link i) (net.at i).node node' frame h in
        let (went, kept) = All-take _ (net.at i).node.msg_outbound rest out (c.sending i) t in
        record {
          valid =
              put_keeps (IsValid P) i (record (net.at i) { node = node' }) net.at
                (record {
                  heard =
                      send_msg-IsHeard P (link i) (net.at i).node node' frame h (c.valid i).heard;
                  waiting = (c.valid i).waiting;
                })
                c.valid;
          sending =
              put_keeps (λ r. IsSending P r.node) i (record (net.at i) { node = node' }) net.at
                (rw left kept) c.sending;
          framed = λ f there j.
              sent-IsFair (link i) (wire j) (net.at i).node node' net.frames frame f
                (fair.conveys i j) (c.sending i) h (λ g old. c.framed g old j) there;
          lasting = c.lasting;
        }
    NetStep-IsClean a b fair (hears net i sender message node' there h) c = record {
      valid =
          put_keeps (IsValid P) i (record (net.at i) { node = node' }) net.at
            (record {
              heard =
                  Holds-returned
                    (receive_fair-IsHeard P (wire i) sender (net.at i).node message
                      (c.framed message there i) (c.valid i).heard)
                    h;
              waiting = (c.valid i).waiting;
            })
            c.valid;
      sending =
          put_keeps (λ r. IsSending P r.node) i (record (net.at i) { node = node' }) net.at
            (same-IsSending P (net.at i).node node' (c.sending i)
              (receive-outbound (wire i) sender (net.at i).node node' message h))
            c.sending;
      framed = c.framed;
      lasting = c.lasting;
    }

    NetRun-IsClean : (a b : Network) → AreFair → NetRun env wire link a b → IsClean a → IsClean b
    NetRun-IsClean a b fair (rests net) c = c
    NetRun-IsClean a b fair (goes x y z step rest) c =
        NetRun-IsClean y z fair rest (NetStep-IsClean x y fair step c)

    -- New nodes have nothing on their channels.
    new-IsClean :
        (net : Network)
        → ((i : ℕ) → IsNew (net.at i))
        → ((i : ℕ) → net.gone i ≡ [])
        → net.frames ≡ []
        → IsClean net
    new-IsClean net new none_gone quiet = record {
      valid = λ i.
          let (info, table, seeds, view_id, made, empty) = new i in
          record {
            heard = new_node-IsHeard P info table seeds view_id (net.at i).node made;
            waiting = rw empty (unfold lookup in λ k p e. cc);
          };
      sending = λ i.
          let (info, table, seeds, view_id, made, empty) = new i in
          let silent : (net.at i).node.msg_outbound.queue ≡ [] =
            unfold new_node update_view_id in ground (arith, made) in
          rw silent tt;
      framed = λ f there j. absurd (rw quiet at there);
      lasting = λ i. rw (none_gone i) tt;
    }

-- In a network of new nodes that receive nothing but what one of them has sent, in any order, more than
-- once or not at all, and whatever the interleaving, with view changes and with the threads that these
-- have dropped and that go on: a property of all proposals that the nodes make themselves, which JSON
-- keeps on the way, is one of every proposal in the log of any node. So no node executes a proposal out
-- of thin air. The entry that a `range` yields first is taken to stand in its map.
pub NetRun-executes_made :
    (P : PrepareMsg → Type 0) (env : ℕ → Env) (wire : ℕ → Wire) (link : ℕ → Link) (a b : Network)
    → AreFair P env wire link
    → ((i : ℕ) → IsNew (a.at i))
    → ((i : ℕ) → a.gone i ≡ [])
    → a.frames ≡ []
    → NetRun env wire link a b
    → (i k : ℕ) (p : PrepareMsg) → lookup k (b.at i).node.committed_msgs ≡ some p
    → P p
NetRun-executes_made P env wire link a b fair new none_gone quiet run i k p at =
    let clean =
      NetRun-IsClean P env wire link a b fair run
        (new-IsClean P env wire link a new none_gone quiet) in
    (clean.valid i).heard.log k p at
