-- ===== src/Tests/Sending.antt =====
-- Sending, receiving and printing.
use text.Mathlib.Text.{◌==◌ as text_beq}
use pa_bft.Base.{
  ℕ, if◌then◌else◌, ◌≡◌, refl, String, none, some, [], ◌∷◌, true, false, arith, get_elem?,
}
use pa_bft.Base.Outcome.{ok, ◌>>=◌}
use pa_bft.Message.{Message, vote}
use pa_bft.Node.{Node, votes}
use pa_bft.Node.Threads.{Env}
use pa_bft.Server.Signing.{sign, verify}
use pa_bft.Server.{Wire, deattach_signature_msg, receive, enter}
use pa_bft.Server.Sending.{Link, zero_signature_msg, attach_signature_msg}
use pa_bft.Server.Delivery.{Speaks, signed, SameContent, receive-attach_signature_msg}
use pa_bft.Server.Listening.{listening, exited, receive_loop, dial_other_nodes}
use pa_bft.Server.Breaking.{receive_all, receive_loop-breaks}
use pa_bft.Server.Dialing.{all_dialed, genesis, dial_other_nodes-begins}
use pa_bft.Tests.Data.{ecdsa, info, started, vote_a, collate_from, change_from}

abbrev env : Env
env = record { digest = λ r. some "d"; dummy = "A"; first = λ m. none }

-- A link and a wire for the vote of A.
abbrev link : Link
link = record {
  encode = λ p. "v";
  ecdsa = ecdsa;
  pack = λ m. if text_beq m.msg_type "" then "" else "x";
  dials = λ url. true;
  writes = λ url text. true;
}

abbrev wire : Wire
wire = record {
  unpack = λ m. if text_beq m "" then zero_signature_msg else signed 1 2 "bb" "v" "/vote";
  fails = λ m. false;
  ecdsa = ecdsa;
  read_prepare = λ m. (none, none);
  read_vote = λ m. vote_a;
  read_collate = λ m. collate_from "A" vote [];
  read_view_change = λ m. change_from "A";
  read_new_view = λ m. record {
    node_id = "A";
    sequence_id = 3;
    next_candidate_idx = 4;
    epoch_id = 0;
    set_view_change_msgs = [];
    min_s = 0;
  };
}

speaking : Speaks link wire (info "A" 2) (votes vote_a.msg)
unfolding sign verify
speaking = record {
  packed = λ r s signature h.
      let e : 1 ≡ r = ground arith in
      let f : 2 ≡ s = ground arith in
      let g : "bb" ≡ signature = ground arith in rw (← e) (rw (← f) (rw (← g) refl));
  empty = refl;
  parses = λ m. refl;
  reads = refl;
  keyed = λ r s signature h. (let e : 1 ≡ r = ground arith in rw (← e) refl);
}

receive-attach_signature_msg_example :
    ((r s : ℕ) (signature : String)
      → sign ecdsa "v" ≡ ok (some (r, s, signature))
      → (frame : String) × (attach_signature_msg link "v" "/vote" ≡ ok frame)
        × (deattach_signature_msg wire (info "A" 2) frame
            ≡ ok (signed r s signature "v" "/vote", true, true))
        × (m : Message) × SameContent (votes vote_a.msg) m
        × (receive wire (info "A" 2) started frame ≡ enter started m))
    × (sign ecdsa "v" ≡ ok none
        → (frame : String) × (attach_signature_msg link "v" "/vote" ≡ ok frame)
          × (receive wire (info "A" 2) started frame
              ≡ (do right ← verify ecdsa none none none ""; ok started)))
receive-attach_signature_msg_example =
    receive-attach_signature_msg link wire (info "A" 2) started (votes vote_a.msg) speaking
      (omega arith)

-- A vote comes in, the connection breaks, and what follows is lost or the program ends.
receive_loop-breaks_example :
    (receive_loop wire (info "A" 2) started (some "x" ∷ none ∷ some "y" ∷ some "x" ∷ []) (true ∷ [])
      ≡ (receive_all wire (info "A" 2) started ("x" ∷ []) >>= λ n.
          receive_loop wire (info "A" 2) n (some "x" ∷ []) []))
    × (receive_loop wire (info "A" 2) started (some "x" ∷ none ∷ some "x" ∷ []) (false ∷ [])
        ≡ (receive_all wire (info "A" 2) started ("x" ∷ []) >>= λ n. ok (n, exited)))
    × (receive_loop wire (info "A" 2) started (some "x" ∷ []) []
        ≡ (receive_all wire (info "A" 2) started ("x" ∷ []) >>= λ n. ok (n, listening)))
receive_loop-breaks_example =
    receive_loop-breaks wire (info "A" 2) started ("x" ∷ []) (some "y") (some "x" ∷ []) []

dial_other_nodes-begins_example :
    (all_dialed (λ url. true) started.node_table ≡ false
      → dial_other_nodes env (λ url. true) started 5 ≡ ok none)
    × (all_dialed (λ url. true) started.node_table ≡ true
        → (begun : Node) × (dial_other_nodes env (λ url. true) started 5
            ≡ ok (some (begun, started.node_table)))
          × (begun.view.primary ≡ get_elem? started.node_table 0)
          × (begun.view.id ≡ 0)
          × (begun.msg_outbound.queue ≡ genesis env started 5 ∷ []))
dial_other_nodes-begins_example =
    dial_other_nodes-begins env (λ url. true) started (info "Node1" 1) 5 refl (omega arith)
