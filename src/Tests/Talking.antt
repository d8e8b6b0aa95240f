-- ===== src/Tests/Talking.antt =====
-- Two nodes: the first proposes, the second votes, counts and executes.
mod Running
use text.Mathlib.Text.{◌==◌ as text_beq}
use pa_bft.Base.{
  int64_key, string_key, ℕ, ◌≡◌, refl, arith, ◌⊎◌, inl, inr, none, some, [], ◌∷◌, true, false,
  if◌then◌else◌, List, Option, String, ◌==◌, Bool-cases,
}
use pa_bft.Base.Chan.{Chan}
use pa_bft.Base.Outcome.{Outcome, returns, ok, panic, blocked, out_of_fuel}
use pa_bft.Base.Map.{lookup, insert, delete, contains}
use pa_bft.Message.{Message, PrepareMsg, req_prepare, voted, vote}
use pa_bft.State.{State, create_state, prepare, verify_msg, set_bizantine}
use pa_bft.State.Voting.{vote as vote_on, vote_result, record_vote}
use pa_bft.Node.{Node, NodeInfo}
use pa_bft.Node.Primary.{update_view_id, update_epoch_id}
use pa_bft.Node.Threads.{
  Env, start_thread_if_not_exists, start_timer, stop_timer, broadcast, report, execute,
  broad_cast_next_prepare_msg_if_primary, create_state_for, prepare_msg_making,
}
use pa_bft.Node.Handlers.{
  get_prepare, get_vote, follow_vote, on_vote_answer, execute_proposal, mark_prepared,
}
use pa_bft.Node.Dispatch.{
  deliver, dispatch_entrance, resolve_msg, resolve_counted, hand_to, hand_to_new,
}
use pa_bft.Node.Execute.{Pairs, execute_msg, execute_loop, execute_one, last_sequence_id}
use pa_bft.Node.Expiry.{handle}
use pa_bft.Node.ViewChanging.{Finish, returned}
use pa_bft.Server.{
  Wire, sort_msg, receive, enter, deattach_signature_msg, new_node, send_genesis_msg_if_primary,
}
use pa_bft.System.{System, dispatches, resolves, handles, executes, put_state}
use pa_bft.Server.Signing.{sign, verify}
use pa_bft.Server.Sending.{Link, send_msg, broadcast_to, attach_signature_msg}
use pa_bft.System.{begins}
use pa_bft.System.Viewing.{inner}
use pa_bft.System.Answering.{IsRange}
use pa_bft.Tests.Data.{
  ecdsa, info, proposal, request, vote_a, collate_from, change_from, finished, started,
}
use pa_bft.System.Network.{
  Network, NetStep, NetRun, put, add_frame, works, speaks, hears, rests, goes,
}
use pa_bft.System.Integrity.{AreFair, IsNew, NetRun-executes_made}

-- `range` is taken to yield the first entry.
abbrev env : Env
env = record {
  digest = λ r. some "d";
  dummy = "A";
  first = λ m. elim m [ [] ↦ none | e ∷ rest ↦ some e.1 ];
}

-- The text "p" is the first proposal, and any other text a vote for it.
abbrev reading : Wire
reading = record {
  unpack = λ m. record {
    signature = "";
    r = some 1;
    s = some 2;
    msg_type = if text_beq m "p" then "/prepare" else "/vote";
    marshalled_msg = m;
  };
  fails = λ m. false;
  ecdsa = ecdsa;
  read_prepare = λ m. (some (request "Op1"), some (proposal 1));
  read_vote = λ m. vote_a;
  read_collate = λ m. collate_from "A" vote [];
  read_view_change = λ m. change_from "A";
  read_new_view = λ m. record {
    node_id = "A";
    sequence_id = 3;
    next_candidate_idx = 4;
    epoch_id = 0;
    set_view_change_msgs = [];
    min_s = 0;
  };
}

-- A proposal or a vote is packed as its kind.
abbrev link : Link
link = record {
  encode = λ p. "x";
  ecdsa = ecdsa;
  pack = λ m. if text_beq m.msg_type "/prepare" then "p" else "v";
  dials = λ url. true;
  writes = λ url text. true;
}

abbrev two_nodes : List NodeInfo
two_nodes = info "Node1" 1 ∷ info "A" 2 ∷ []

abbrev at : Node → System
at node = record { node = node; pairs = [] }

abbrev the_proposal : Message
the_proposal = req_prepare (record { request_msg = some (request "Op1"); prepare_msg = proposal 1 })

abbrev the_vote : Message
the_vote = voted vote_a

-- The channels of the node and of the thread, empty again.
abbrev no_mail : {A : Type 0} → Chan A → Chan A
no_mail ch = record ch { queue = [] }

abbrev entered : Node → Node
entered n = record n { msg_entrance = no_mail n.msg_entrance }

abbrev delivered : Node → Node
delivered n = record n { msg_delivery = no_mail n.msg_delivery }

abbrev thread : Node → State
thread n = elim (lookup 1 n.states) [ none ↦ create_state 0 "A" 2 1 | some s ↦ s ]

abbrev run_handler : Message → Node → Outcome (Node × State × Finish)
run_handler msg n =
    let s = thread n in handle env n (record s { msg_state = no_mail s.msg_state }) msg 0 0

abbrev handled : Message → Node → Node × State × Finish
handled msg n = finished (n, thread n, returned) (run_handler msg n)

abbrev spoken : Node → Node × Option (String × String)
spoken n = finished (n, none) (send_msg link n)

-- The first node proposes, and the second takes part.
abbrev a0 : Node
a0 = finished started (new_node (info "Node1" 1) two_nodes [] 0)

abbrev a1 : Node
a1 = finished started (send_genesis_msg_if_primary env a0 0)

abbrev b0 : Node
b0 = finished started (new_node (info "A" 2) two_nodes [] 0)

abbrev b1 : Node
b1 = finished started (receive reading (info "Node1" 1) b0 "p")

abbrev b2 : Node
b2 = finished started (dispatch_entrance (entered b1) the_proposal)

abbrev b3 : Node
b3 = finished started (resolve_msg (delivered b2) the_proposal)

abbrev b4 : Node
b4 = put_state (handled the_proposal b3).0 1 (handled the_proposal b3).1

-- Its proposal for the next sequence number goes out, and its vote.
abbrev b5 : Node
b5 = (spoken b4).0

abbrev b6 : Node
b6 = (spoken b5).0

abbrev b7 : Node
b7 = finished started (receive reading (info "A" 2) b6 "v")

abbrev b8 : Node
b8 = finished started (dispatch_entrance (entered b7) the_vote)

abbrev b9 : Node
b9 = finished started (resolve_msg (delivered b8) the_vote)

abbrev b10 : Node
b10 = put_state (handled the_vote b9).0 1 (handled the_vote b9).1

abbrev b11 : Node × Pairs
b11 =
    finished (started, [])
      (execute_msg (record b10 { msg_execution = no_mail b10.msg_execution }) []
        (some (proposal 1)))

abbrev m0 : Network
m0 = record { at = λ i. at (if i == 0 then a0 else b0); gone = λ i. []; frames = [] }

-- The network after a node has worked, sent or received.
abbrev worked : Network → ℕ → System → Network
worked m i sys = record m { at = put i sys m.at; gone = put i (m.gone i) m.gone }

abbrev said : Network → ℕ → Node → Network
said m i n = record m {
  at = put i (record (m.at i) { node = (spoken n).0 }) m.at;
  frames = add_frame (spoken n).1 m.frames;
}

abbrev listened : Network → ℕ → Node → Network
listened m i n = record m { at = put i (record (m.at i) { node = n }) m.at }

abbrev m1 : Network
m1 = worked m0 0 (at a1)

abbrev m2 : Network
m2 = said m1 0 a1

abbrev m3 : Network
m3 = listened m2 1 b1

abbrev m4 : Network
m4 = worked m3 1 (at b2)

abbrev m5 : Network
m5 = worked m4 1 (at b3)

abbrev m6 : Network
m6 = worked m5 1 (at b4)

abbrev m7 : Network
m7 = said m6 1 b4

abbrev m8 : Network
m8 = said m7 1 b5

abbrev m9 : Network
m9 = listened m8 1 b7

abbrev m10 : Network
m10 = worked m9 1 (at b8)

abbrev m11 : Network
m11 = worked m10 1 (at b9)

abbrev m12 : Network
m12 = worked m11 1 (at b10)

abbrev m13 : Network
m13 = worked m12 1 (record { node = b11.0; pairs = b11.1 })
