-- ===== src/Tests/Timing.antt =====
-- Timers, and messages that come in.
use pa_bft.Base.{int64_key, string_key, ◌≡◌, refl, none, some, true, false, [], ◌∷◌, arith}
use pa_bft.Base.Map.{insert, lookup}
use pa_bft.Message.{voted}
use pa_bft.State.{State, create_state}
use pa_bft.Node.{Node, NodeInfo}
use pa_bft.Node.Threads.{Env}
use pa_bft.Node.Dispatch.{deliver, dispatch_entrance, resolve_msg, resolve_counted, hand_to}
use pa_bft.Node.Routing.{queue_at}
use pa_bft.Node.Timers.{start, stop, cancel, take_start, take_stop, take_cancel, run_timers}
use pa_bft.Node.Waiting.{starts_first, run_timers-starts_first}
use pa_bft.Node.Expiry.{expire_prepare, expire_vote}
use pa_bft.Server.{Wire, sort_msg, receive, enter, deattach_signature_msg}
use pa_bft.Server.Entering.{unverified_vote-queued}
use pa_bft.Tests.Data.{ecdsa, started, proposal, fresh, vote_a, collate_from, change_from, finished}

run_timers-starts_first_example :
    starts_first
      (λ i. false)
      (start "Prepare" ∷ stop "Prepare" ∷ cancel "Prepare" ∷ start "Vote" ∷ [])
    ≡ true
unfolding run_timers take_start take_stop take_cancel
run_timers-starts_first_example =
    run_timers-starts_first
      (start "Prepare" ∷ stop "Prepare" ∷ cancel "Prepare" ∷ start "Vote" ∷ []) refl

abbrev env : Env
env = record { digest = λ r. some "d"; dummy = "A"; first = λ m. none }

-- A thread of a table of ten with a proposal and no vote.
abbrev silent : State
silent =
    let s = create_state 0 "Node1" 10 1 in
    record s { msg_logs = record s.msg_logs { prepare_msg = some (proposal 1) } }

abbrev after_vote : Node
after_vote = finished started (expire_vote env started silent)

abbrev after_prepare : Node × State
after_prepare = finished (started, fresh) (expire_prepare env started fresh 1)

-- Every message is a vote of A, and no signature is right.
abbrev forging : Wire
forging = record {
  unpack = λ m. record {
    signature = "";
    r = some 3;
    s = some 2;
    msg_type = "/vote";
    marshalled_msg = m;
  };
  fails = λ m. false;
  ecdsa = ecdsa;
  read_prepare = λ m. (none, none);
  read_vote = λ m. vote_a;
  read_collate = λ m. collate_from "A" (vote_a.msg.msg_type) [];
  read_view_change = λ m. change_from "A";
  read_new_view = λ m. record {
    node_id = "A";
    sequence_id = 3;
    next_candidate_idx = 4;
    epoch_id = 0;
    set_view_change_msgs = [];
    min_s = 0;
  };
}

abbrev sender : NodeInfo
sender = record { addr = 2; node_id = "Node2"; url = "localhost"; pub_key = none }

abbrev received : Node
received = finished started (receive forging sender started "x")

abbrev delivered : Node
delivered = finished started (dispatch_entrance received (voted vote_a))

abbrev resolved : Node
resolved = finished started (resolve_msg delivered (voted vote_a))

unverified_vote-queued_example :
    (received.msg_entrance.queue ≡ voted vote_a ∷ [])
    × (delivered.msg_delivery.queue ≡ voted vote_a ∷ [])
    × (queue_at resolved 1 ≡ voted vote_a ∷ [])
unfolding receive sort_msg enter deattach_signature_msg dispatch_entrance deliver resolve_msg
    resolve_counted hand_to lookup insert create_state
unverified_vote-queued_example =
    unverified_vote-queued forging sender started received delivered resolved "x"
      (forging.unpack "x") true vote_a refl refl refl (ground arith) refl refl refl refl refl
