-- ===== src/Tests/Handling.antt =====
-- The handlers of the node, and the way of a message to them.
use pa_bft.Base.{
  int64_key, string_key, ◌≡◌, refl, none, some, [], ◌∷◌, ◌++◌, arith, if◌then◌else◌, ◌==◌,
}
use pa_bft.Base.Map.{lookup, insert, contains}
use pa_bft.Base.Outcome.{ok}
use pa_bft.Message.{voted, is_committed, committed, ReqPrepareMsgs}
use pa_bft.State.{State, create_state, set_bizantine, verify_msg}
use pa_bft.State.Voting.{vote, record_vote, vote_result}
use pa_bft.Node.{Node}
use pa_bft.Node.Threads.{Env}
use pa_bft.Node.Handlers.{get_vote, get_collate, get_prepare}
use pa_bft.Node.Dispatch.{resolve_msg}
use pa_bft.Node.Handling.{HasSpace, get_vote-executes}
use pa_bft.Node.Routing.{queue_at, resolve_msg-queues}
use pa_bft.Tests.Data.{
  finished, started, proposal, request, fresh, vote_a, vote_b, vote_c, collate_from,
}

abbrev env : Env
env = record { digest = λ r. some "d"; dummy = "A"; first = λ m. none }

-- The thread of sequence number 1 with its proposal, and two votes.
abbrev voting : State
voting =
    let s = (vote (vote fresh (some vote_a) 10).0 (some vote_b) 10).0 in
    record s { msg_logs = record s.msg_logs { prepare_msg = some (proposal 1) } }

voting-HasSpace : HasSpace started voting
unfolding vote record_vote create_state verify_msg vote_result set_bizantine contains insert
voting-HasSpace = record {
  execution = omega arith;
  outbound = omega arith;
  errors = omega arith;
  start = omega arith;
  stop = omega arith;
}

get_vote-executes_example :
    (node' : Node) × (s' : State) × (get_vote env started voting vote_c ≡ ok (node', s'))
    × (node'.msg_execution.queue ≡ (
        if is_committed (vote voting (some vote_c) 10).1.msg_type
        then [] ++ some (proposal 1) ∷ []
        else []))
unfolding vote record_vote create_state verify_msg vote_result set_bizantine contains insert
get_vote-executes_example =
    get_vote-executes env started voting vote_c (proposal 1) refl (omega arith) voting-HasSpace

-- The thread of a proposal without votes, at a node that has prepared it.
abbrev holding : State
holding = record fresh { msg_logs = record fresh.msg_logs { prepare_msg = some (proposal 1) } }

abbrev prepared_one : Node
prepared_one = record started { prepared = λ i. if i == 1 then 1 else 0 }

abbrev collated_one : Node × State
collated_one =
    finished (started, fresh) (get_collate env prepared_one holding (collate_from "B" committed []))

abbrev first_proposal : ReqPrepareMsgs
first_proposal = record { request_msg = some (request "Op1"); prepare_msg = proposal 1 }

abbrev followed : Node × State
followed = finished (started, fresh) (get_prepare env started fresh first_proposal 7)

abbrev queued : Node
queued = finished started (resolve_msg started (voted vote_a))

resolve_msg-queues_example : queue_at queued 1 ≡ voted vote_a ∷ []
unfolding resolve_msg lookup insert create_state
resolve_msg-queues_example = resolve_msg-queues started queued (voted vote_a) 1 refl
