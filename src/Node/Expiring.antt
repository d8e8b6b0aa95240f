-- ===== src/Node/Expiring.antt =====
-- What the end of a timer (pbft/network/node.go) hands to the executor.
use pa_bft.Base.{ℕ, ◌+◌, ◌*◌, ◌≤◌, ◌≡◌, ◌&&◌, none, some, Bool, length, length-append, leb, arith}
use pa_bft.Base.Outcome.{ok}
use pa_bft.State.{State, prepare}
use pa_bft.Node.{Node}
use pa_bft.Node.Threads.{Env, broadcast, start_timer}
use pa_bft.Node.Handlers.{mark_prepared}
use pa_bft.Node.Expiry.{null_proposal, expire_prepare}

-- The answer of `VoteAQ` for a table of `n` nodes: at most 2f are silent, and the counter of VOTEs and the
-- silent nodes make 2f + 1.
abbrev pub reaches : State → ℕ → Bool
reaches s n =
    leb n (2 * s.f + s.msg_logs.total_vote_msg)
    && leb (2 * s.f + 1 + s.msg_logs.total_vote_msg) (s.msg_logs.total_vote_ok_msg + n)

-- The prepare timer ends without a proposal: the node votes for the empty proposal, which it logs over
-- whatever proposal was there, and marks the sequence number as prepared.
pub expire_prepare-votes_null :
    (env : Env) (node node' : Node) (s s' : State) (seq_id : ℕ)
    → node.prepared seq_id ≤ 1
    → expire_prepare env node s seq_id ≡ ok (node', s')
    → (s'.msg_logs.prepare_msg ≡ some (null_proposal seq_id))
      × (s'.msg_logs.req_msg ≡ none)
      × (s'.msg_logs.vote_msgs ≡ s.msg_logs.vote_msgs)
      × (node'.prepared seq_id ≡ 1)
      × (length node'.msg_outbound.queue ≡ length node.msg_outbound.queue + 1)
unfolding expire_prepare start_timer mark_prepared broadcast prepare
expire_prepare-votes_null env node node' s s' seq_id once h =
    (ground arith, ground arith, ground arith, ground arith, grind (arith, length-append))
