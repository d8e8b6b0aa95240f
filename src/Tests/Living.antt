-- ===== src/Tests/Living.antt =====
-- A run of a node of a table of two, from a proposal and a vote to the log.
use text.Mathlib.Text.{◌==◌ as text_beq}
use pa_bft.Base.{
  int64_key, string_key, ℕ, ◌≡◌, refl, arith, ◌≢◌, ◌⊎◌, inl, inr, none, some, [], ◌∷◌, true, false,
  if◌then◌else◌, List,
}
use pa_bft.Base.Chan.{Chan, take}
use pa_bft.Base.Outcome.{Outcome, returns, ok, panic, blocked, out_of_fuel}
use pa_bft.Base.Map.{lookup, insert, delete, contains}
use pa_bft.Message.{Message, PrepareMsg, VoteRef, req_prepare, voted, vote}
use pa_bft.State.{State, create_state, prepare, wrong_sequence, verify_msg, set_bizantine}
use pa_bft.State.Voting.{vote as vote_on, vote_result, record_vote}
use pa_bft.Node.{Node, NodeInfo}
use pa_bft.Node.Primary.{update_view_id, update_epoch_id}
use pa_bft.Node.Threads.{
  Env, start_thread_if_not_exists, start_timer, stop_timer, broadcast, report, execute,
  broad_cast_next_prepare_msg_if_primary, create_state_for,
}
use pa_bft.Node.Handlers.{
  get_prepare, get_vote, follow_vote, on_vote_answer, execute_proposal, mark_prepared,
}
use pa_bft.Node.Dispatch.{
  deliver, dispatch_entrance, resolve_msg, resolve_counted, hand_to, hand_to_new,
}
use pa_bft.Node.Execute.{Pairs, execute_msg, execute_loop, execute_one, last_sequence_id}
use pa_bft.Node.Expiry.{handle}
use pa_bft.Node.ViewChanging.{Finish, returned}
use pa_bft.Server.{Wire, sort_msg, receive, enter, deattach_signature_msg, new_node}
use pa_bft.System.{
  System, Run, receives, dispatches, resolves, handles, executes, stay, go, put_state,
}
use pa_bft.Node.Order.{IsOrdered}
use pa_bft.Server.Sending.{Link, send_msg}
use pa_bft.Node.ViewChanging.{start_view_change}
use pa_bft.System.{sends}
use pa_bft.System.Viewing.{WholeRun, inner, ends_view_change, ends, goes_on}
use pa_bft.System.Mail.{IfSome}
use pa_bft.System.Safety.{IsExtended, Run-append_only}
use pa_bft.System.Answering.{IsRange}
use pa_bft.System.Arriving.{IsOfAll}
use pa_bft.System.Origin.{
  Run-append, Run-WholeRun, WholeRun-append, WholeRun-executes_received, IsMailOf, WholeRun-routes,
}
use pa_bft.Tests.Data.{
  ecdsa, info, proposal, request, vote_a, collate_from, change_from, finished, started,
}

-- `range` is taken to yield the first entry.
abbrev env : Env
env = record {
  digest = λ r. some "d";
  dummy = "A";
  first = λ m. elim m [ [] ↦ none | e ∷ rest ↦ some e.1 ];
}

-- The text "p" is the first proposal, and any other text a vote for it.
abbrev reading : Wire
reading = record {
  unpack = λ m. record {
    signature = "";
    r = some 1;
    s = some 2;
    msg_type = if text_beq m "p" then "/prepare" else "/vote";
    marshalled_msg = m;
  };
  fails = λ m. false;
  ecdsa = ecdsa;
  read_prepare = λ m. (some (request "Op1"), some (proposal 1));
  read_vote = λ m. vote_a;
  read_collate = λ m. collate_from "A" vote [];
  read_view_change = λ m. change_from "A";
  read_new_view = λ m. record {
    node_id = "A";
    sequence_id = 3;
    next_candidate_idx = 4;
    epoch_id = 0;
    set_view_change_msgs = [];
    min_s = 0;
  };
}

abbrev two_nodes : List NodeInfo
two_nodes = info "Node1" 1 ∷ info "A" 2 ∷ []

abbrev n0 : Node
n0 = finished started (new_node (info "Node1" 1) two_nodes [] 0)

abbrev at : Node → System
at node = record { node = node; pairs = [] }

abbrev the_proposal : Message
the_proposal = req_prepare (record { request_msg = some (request "Op1"); prepare_msg = proposal 1 })

abbrev the_vote : Message
the_vote = voted vote_a

-- The channels of the node and of the thread, empty again.
abbrev no_mail : {A : Type 0} → Chan A → Chan A
no_mail ch = record ch { queue = [] }

abbrev entered : Node → Node
entered n = record n { msg_entrance = no_mail n.msg_entrance }

abbrev delivered : Node → Node
delivered n = record n { msg_delivery = no_mail n.msg_delivery }

abbrev thread : Node → State
thread n = elim (lookup 1 n.states) [ none ↦ create_state 0 "A" 2 1 | some s ↦ s ]

abbrev handled : Message → Node → Node × State × Finish
handled msg n =
    let s = thread n in
    finished (n, s, returned) (handle env n (record s { msg_state = no_mail s.msg_state }) msg 0 0)

abbrev n1 : Node
n1 = finished started (receive reading (info "A" 2) n0 "p")

abbrev n2 : Node
n2 = finished started (dispatch_entrance (entered n1) the_proposal)

abbrev n3 : Node
n3 = finished started (resolve_msg (delivered n2) the_proposal)

abbrev n4 : Node
n4 = put_state (handled the_proposal n3).0 1 (handled the_proposal n3).1

abbrev n5 : Node
n5 = finished started (receive reading (info "A" 2) n4 "v")

abbrev n6 : Node
n6 = finished started (dispatch_entrance (entered n5) the_vote)

abbrev n7 : Node
n7 = finished started (resolve_msg (delivered n6) the_vote)

abbrev n8 : Node
n8 = put_state (handled the_vote n7).0 1 (handled the_vote n7).1

abbrev n9 : Node × Pairs
n9 =
    finished (started, [])
      (execute_msg (record n8 { msg_execution = no_mail n8.msg_execution }) [] (some (proposal 1)))

abbrev last : System
last = record { node = n9.0; pairs = n9.1 }

vote-Run : Run env reading (at n0) (at n7)
unfolding new_node receive sort_msg enter deattach_signature_msg dispatch_entrance deliver
    resolve_msg resolve_counted hand_to_new hand_to start_thread_if_not_exists start_timer
    stop_timer create_state create_state_for lookup insert delete contains handle get_prepare
    get_vote follow_vote on_vote_answer execute_proposal mark_prepared broadcast report execute
    broad_cast_next_prepare_msg_if_primary update_view_id update_epoch_id prepare verify_msg
    set_bizantine vote_on vote_result record_vote execute_msg execute_loop execute_one
    last_sequence_id
vote-Run = go (at n0) (at n1) (at n7) (receives (info "A" 2) "p" n0 n1 [] refl) (
    go (at n1) (at n2) (at n7)
      (dispatches the_proposal (no_mail n1.msg_entrance) n1 n2 [] refl refl)
      (go (at n2) (at n3) (at n7)
        (resolves the_proposal (no_mail n2.msg_delivery) n2 n3 [] refl refl)
        (go (at n3) (at n4) (at n7)
          (handles 1 0 0 (thread n3) (handled the_proposal n3).1 the_proposal
            (no_mail (thread n3).msg_state) n3 (handled the_proposal n3).0 [] returned refl refl
            refl refl)
          (go (at n4) (at n5) (at n7) (receives (info "A" 2) "v" n4 n5 [] refl) (
            go (at n5) (at n6) (at n7)
              (dispatches the_vote (no_mail n5.msg_entrance) n5 n6 [] refl refl)
              (go (at n6) (at n7) (at n7)
                (resolves the_vote (no_mail n6.msg_delivery) n6 n7 [] refl refl)
                (stay (at n7))))))))

execute-Run : Run env reading (at n7) last
unfolding new_node receive sort_msg enter deattach_signature_msg dispatch_entrance deliver
    resolve_msg resolve_counted hand_to_new hand_to start_thread_if_not_exists start_timer
    stop_timer create_state create_state_for lookup insert delete contains handle get_prepare
    get_vote follow_vote on_vote_answer execute_proposal mark_prepared broadcast report execute
    broad_cast_next_prepare_msg_if_primary update_view_id update_epoch_id prepare verify_msg
    set_bizantine vote_on vote_result record_vote execute_msg execute_loop execute_one
    last_sequence_id
execute-Run =
    go (at n7) (at n8) last
      (handles 1 0 0 (thread n7) (handled the_vote n7).1 the_vote (no_mail (thread n7).msg_state) n7
        (handled the_vote n7).0 [] returned refl refl refl refl)
      (go (at n8) last last
        (executes (some (proposal 1)) (no_mail n8.msg_execution) n8 n9.0 [] n9.1 refl refl)
        (stay last))

-- Then a message goes out, and the node asks for a new view.
abbrev link : Link
link = record {
  encode = λ p. "v";
  ecdsa = ecdsa;
  pack = λ m. "x";
  dials = λ url. true;
  writes = λ url text. true;
}

abbrev n10 : Node
n10 = (finished (started, none) (send_msg link n9.0)).0

abbrev n11 : Node
n11 = finished started (start_view_change n10 (thread n10).sequence_id)

abbrev asked : System
asked = record { node = n11; pairs = n9.1 }

-- The node that is made is what the run returns.
finished-ok : {A : Type 0} (a : A) (m : Outcome A) → returns m ≡ true → m ≡ ok (finished a m)
finished-ok a (ok b) h = refl
finished-ok a panic h = cc
finished-ok a blocked h = cc
finished-ok a out_of_fuel h = cc

asking-WholeRun : WholeRun env reading last asked
unfolding new_node receive sort_msg enter deattach_signature_msg dispatch_entrance deliver
    resolve_msg resolve_counted hand_to_new hand_to start_thread_if_not_exists start_timer
    stop_timer create_state create_state_for lookup insert delete contains handle get_prepare
    get_vote follow_vote on_vote_answer execute_proposal mark_prepared broadcast report execute
    broad_cast_next_prepare_msg_if_primary update_view_id update_epoch_id prepare verify_msg
    set_bizantine vote_on vote_result record_vote execute_msg execute_loop execute_one
    last_sequence_id send_msg start_view_change
asking-WholeRun =
    goes_on last (record { node = n10; pairs = n9.1 }) asked
      (inner last (record { node = n10; pairs = n9.1 })
        (sends link n9.0 n10 n9.1 (finished (started, none) (send_msg link n9.0)).1 refl))
      (goes_on (record { node = n10; pairs = n9.1 }) asked asked
        (ends_view_change 1 (thread n10) n10 n11 n9.1 refl
          (finished-ok started (start_view_change n10 (thread n10).sequence_id) refl))
        (ends asked))

first-IsRange : IsRange env.first
unfolding lookup
first-IsRange [] v e = cc
first-IsRange ((id, w) ∷ rest) v e =
    let same : text_beq id id ≡ true = (string_key.same_iff id id).1 refl in (id, rw same e)

-- A proposal of a client, or one made up.
abbrev IsMarked : PrepareMsg → Type 0
IsMarked p = (p.digest ≡ "d") ⊎ (p.digest ≡ "")

reading-IsOfAll : IsOfAll IsMarked reading
reading-IsOfAll = record {
  in_prepares = λ text p e. inl (let f : proposal 1 ≡ p = ground arith in rw (← f) refl);
  in_votes = λ text. inl refl;
  in_null = λ seq. inr refl;
  in_empty = λ node seq. inr refl;
}

WholeRun-executes_received_example : IsMarked (proposal 1)
unfolding new_node receive sort_msg enter deattach_signature_msg dispatch_entrance deliver
    resolve_msg resolve_counted hand_to_new hand_to start_thread_if_not_exists start_timer
    stop_timer create_state create_state_for lookup insert delete contains handle get_prepare
    get_vote follow_vote on_vote_answer execute_proposal mark_prepared broadcast report execute
    broad_cast_next_prepare_msg_if_primary update_view_id update_epoch_id prepare verify_msg
    set_bizantine vote_on vote_result record_vote execute_msg execute_loop execute_one
    last_sequence_id start_view_change send_msg
WholeRun-executes_received_example =
    WholeRun-executes_received IsMarked env reading (info "Node1" 1) two_nodes [] 0 n0 asked
      first-IsRange reading-IsOfAll refl
      (WholeRun-append env reading (at n0) last asked
        (Run-WholeRun env reading (at n0) last
          (Run-append env reading (at n0) (at n7) last vote-Run execute-Run))
        asking-WholeRun)
      1 (proposal 1) refl

WholeRun-routes_example :
    ((thread n7).sequence_id ≡ 1)
    × IsMailOf 1 (thread n7).msg_state.queue
    × IfSome (λ (p : PrepareMsg). p.sequence_id ≡ 1) (thread n7).msg_logs.prepare_msg
    × ((r : VoteRef) (rest : Chan Message) (i j : ℕ)
        → take (thread n7).msg_state ≡ some (voted r, rest)
        → verify_msg (thread n7) r.msg.view_id r.msg.sequence_id r.msg.digest
          ≢ some (wrong_sequence i j))
unfolding new_node receive sort_msg enter deattach_signature_msg dispatch_entrance deliver
    resolve_msg resolve_counted hand_to_new hand_to start_thread_if_not_exists start_timer
    stop_timer create_state create_state_for lookup insert delete contains handle get_prepare
    get_vote follow_vote on_vote_answer execute_proposal mark_prepared broadcast report execute
    broad_cast_next_prepare_msg_if_primary update_view_id update_epoch_id prepare verify_msg
    set_bizantine vote_on vote_result record_vote execute_msg execute_loop execute_one
    last_sequence_id
WholeRun-routes_example =
    WholeRun-routes env reading (info "Node1" 1) two_nodes [] 0 n0 (at n7) first-IsRange refl
      (Run-WholeRun env reading (at n0) (at n7) vote-Run) 1 (thread n7) refl

Run-append_only_example : IsOrdered n7 × IsOrdered n9.0 × IsExtended n7 n9.0
unfolding new_node receive sort_msg enter deattach_signature_msg dispatch_entrance deliver
    resolve_msg resolve_counted hand_to_new hand_to start_thread_if_not_exists start_timer
    stop_timer create_state create_state_for lookup insert delete contains handle get_prepare
    get_vote follow_vote on_vote_answer execute_proposal mark_prepared broadcast report execute
    broad_cast_next_prepare_msg_if_primary update_view_id update_epoch_id prepare verify_msg
    set_bizantine vote_on vote_result record_vote execute_msg execute_loop execute_one
    last_sequence_id
Run-append_only_example =
    Run-append_only env reading (info "Node1" 1) two_nodes [] 0 n0 (at n7) last refl vote-Run
      execute-Run
