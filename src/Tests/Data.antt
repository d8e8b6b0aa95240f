-- ===== src/Tests/Data.antt =====
-- Messages, states and nodes for the tests.
use pa_bft.Base.{ℕ, ◌==◌, String, false, none, some, List, [], ◌∷◌}
use pa_bft.Base.Outcome.{Outcome, ok}
use pa_bft.Base.Chan.{make_chan}
use pa_bft.Message.{
  RequestMsg, PrepareMsg, VoteRef, CollateMsg, MsgType, vote, ViewChangeMsg, VoteMsgs,
}
use pa_bft.State.{State, create_state}
use pa_bft.ViewChange.{VcState, create_view_change_state}
use pa_bft.Node.{Node, NodeInfo}
use pa_bft.Server.Signing.{Ecdsa}

abbrev pub table_ids : List String
table_ids = "A" ∷ "B" ∷ "C" ∷ "D" ∷ []

abbrev pub proposal : ℕ → PrepareMsg
proposal seq = record {
  view_id = 0;
  sequence_id = seq;
  digest = "d";
  epoch_id = 0;
  node_id = "A";
  seed = 0;
}

abbrev pub request : String → RequestMsg
request operation = record {
  timestamp = 7;
  client_id = "Client1";
  operation = operation;
  payload = "A";
  sequence_id = 1;
}

-- A vote of a node in view 0 on a sequence number, at an address.
abbrev pub vote_from : String → ℕ → ℕ → MsgType → VoteRef
vote_from id addr seq t = record {
  addr = addr;
  msg = record {
    view_id = 0;
    sequence_id = seq;
    prepare_msg = some (proposal seq);
    digest = "d";
    node_id = id;
    msg_type = t;
  };
}

abbrev pub fresh : State
fresh = create_state 0 "A" 4 1

abbrev pub vote_a : VoteRef
vote_a = vote_from "A" 10 1 vote

abbrev pub vote_b : VoteRef
vote_b = vote_from "B" 11 1 vote

abbrev pub vote_c : VoteRef
vote_c = vote_from "C" 12 1 vote

abbrev pub collate_from : String → MsgType → VoteMsgs → CollateMsg
collate_from id t votes = record {
  received_prepare = some (proposal 1);
  received_vote_msg = votes;
  sent_vote_msg = none;
  view_id = 0;
  sequence_id = 1;
  digest = "d";
  msg_type = t;
  node_id = id;
}

abbrev pub change_from : String → ViewChangeMsg
change_from id = record {
  node_id = id;
  sequence_id = 3;
  next_candidate_idx = 10;
  stable_check_point = 2;
  set_p = [];
}

abbrev pub fresh_view_change : VcState
fresh_view_change = create_view_change_state "A" 4 10 2 3

abbrev pub info : String → ℕ → NodeInfo
info id addr = record { addr = addr; node_id = id; url = "localhost"; pub_key = none }

abbrev pub ten_nodes : List NodeInfo
ten_nodes =
    info "Node1" 1
    ∷ info "Node2" 2
    ∷ info "Node3" 3
    ∷ info "Node4" 4
    ∷ info "Node5" 5
    ∷ info "Node6" 6
    ∷ info "Node7" 7
    ∷ info "Node8" 8
    ∷ info "Node9" 9
    ∷ info "Node10" 10
    ∷ []

-- A node of ten that has the threads of the sequence numbers 1 to 3 and has executed nothing.
abbrev pub started : Node
started = record {
  my_info = info "Node1" 1;
  node_table = ten_nodes;
  seed_node_tables = [];
  view = record { id = 0; primary = none };
  epoch_id = 0;
  states =
      (1, create_state 0 "Node1" 10 1)
      ∷ (2, create_state 0 "Node1" 10 2)
      ∷ (3, create_state 0 "Node1" 10 3)
      ∷ [];
  vc_states = [];
  committed_msgs = [];
  committed = λ i. 0;
  prepared = λ i. 0;
  total_consensus = 3;
  is_view_changing = false;
  next_candidate_idx = 10;
  msg_entrance = make_chan 1000;
  msg_delivery = make_chan 1000;
  msg_execution = make_chan 1000;
  msg_outbound = make_chan 10;
  msg_error = make_chan 10;
  view_msg_entrance = make_chan 30;
  check_point_msgs_log = [];
  stable_check_point = 0;
}

-- The result of a run that returns.
abbrev pub finished : {A : Type 0} → A → Outcome A → A
finished a (ok b) = b
finished a _ = a

-- Everything is signed with 1 and 2, and nothing else is right.
abbrev pub ecdsa : Ecdsa
ecdsa = record {
  sum256 = λ text. text;
  signs = λ text. ok (some (1, 2));
  verifies = λ key text r s. ok (elim r [ none ↦ false | some n ↦ n == 1 ]);
  bytes = λ n. "b";
}
