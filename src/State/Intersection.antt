-- ===== src/State/Intersection.antt =====
-- What a COMMITTED answer of `Vote` (pbft/consensus/pbft_impl.go) carries, at one node and at two.
use pa_bft.Base.{
  string_key, ℕ, ◌+◌, ◌*◌, ◌-◌, ◌^◌, ◌≤◌, ◌<◌, ◌≡◌, Bool, true, List, String, some, arith, length,
  count_if, count_if-overlap, ◌&&◌, Bool-cases, inl, inr, false,
}
use pa_bft.Base.Keys.{IsDistinct, insert-IsDistinct}
use pa_bft.Base.Map.{contains}
use pa_bft.State.Voting.{record_vote}
use pa_bft.State.Tally.{vote-state}
use pa_bft.Message.{is_vote}
use pa_bft.Base.Overlap.{AllIn, holds_at, count_if-holds_at}
use pa_bft.Message.{VoteRef, CollateMsg, is_committed}
use pa_bft.State.{State, verify_msg, set_bizantine}
use pa_bft.State.Voting.{vote, vote_result}
use pa_bft.State.Tally.{ok_votes, ref_ok}
use pa_bft.State.Quorum.{vote_log}

answer_votes :
    (s : State) (r : VoteRef) (n : ℕ)
    → is_committed (vote s (some r) n).1.msg_type ≡ true
    → (vote s (some r) n).1.received_vote_msg ≡ (vote s (some r) n).0.msg_logs.vote_msgs
unfolding vote vote_result verify_msg set_bizantine
answer_votes s r n c = ground arith

vote-IsDistinct :
    (s : State) (r : VoteRef) (n : ℕ)
    → IsDistinct s.msg_logs.vote_msgs
    → IsDistinct (vote s (some r) n).0.msg_logs.vote_msgs
unfolding record_vote
vote-IsDistinct s r n d = elim (Bool-cases (contains r.msg.node_id s.msg_logs.vote_msgs)) [
  | inl old ↦ rw (vote-state s r n, old) d
  | inr new ↦
      rw (vote-state s r n, new) (insert-IsDistinct r.msg.node_id (some r) s.msg_logs.vote_msgs d)
]

-- Where `Vote` answers COMMITTED, the counter of VOTE votes was 2f and the vote is a new VOTE.
committed_counter :
    (s : State) (r : VoteRef) (n : ℕ)
    → s.msg_logs.total_vote_ok_msg < 2 ^ 31 - 1
    → is_committed (vote s (some r) n).1.msg_type ≡ true
    → (contains r.msg.node_id s.msg_logs.vote_msgs ≡ false)
      × (is_vote r.msg.msg_type ≡ true)
      × (s.msg_logs.total_vote_ok_msg ≡ 2 * s.f)
unfolding vote record_vote vote_result verify_msg
committed_counter s r n small c = ground arith

-- A COMMITTED answer carries one entry for each node, and 2f + 1 of them are VOTEs, less by as many as the
-- counter was above the VOTEs in the log.
pub vote-committed_proof :
    (s : State) (r : VoteRef) (n : ℕ)
    → IsDistinct s.msg_logs.vote_msgs
    → s.msg_logs.total_vote_ok_msg < 2 ^ 31 - 1
    → is_committed (vote s (some r) n).1.msg_type ≡ true
    → IsDistinct (vote s (some r) n).1.received_vote_msg
      × (ok_votes (vote s (some r) n).1.received_vote_msg + s.msg_logs.total_vote_ok_msg
          ≡ 2 * s.f + 1 + ok_votes s.msg_logs.vote_msgs)
vote-committed_proof s r n d small c =
    let h = committed_counter s r n small c in
    rw (answer_votes s r n c) (vote-IsDistinct s r n d, ground (arith, vote_log s r n, h))

-- A node whose entry is a VOTE in both messages.
abbrev pub voted_in_both : CollateMsg → CollateMsg → String → Bool
voted_in_both c c' id =
    holds_at ref_ok c.received_vote_msg id && holds_at ref_ok c'.received_vote_msg id

-- Two nodes of a table of 3f + 1 nodes, each with one entry of the log for each node and a counter of VOTE
-- votes below 2 ^ 31 - 1, that answer COMMITTED to a vote with votes from the table only: the nodes that
-- voted for both are f + 1 or more, less by as many as each counter is above the VOTEs in its log. Where
-- the counters are the numbers of VOTEs in the logs, that is f + 1 voters in common.
pub two_commits_share_voters :
    (ids : List String) (f : ℕ) (s s' : State) (r r' : VoteRef) (n : ℕ)
    → length ids ≡ 3 * f + 1
    → (IsDistinct s.msg_logs.vote_msgs × (s.f ≡ f) × (s.msg_logs.total_vote_ok_msg < 2 ^ 31 - 1))
    → (IsDistinct s'.msg_logs.vote_msgs × (s'.f ≡ f) × (s'.msg_logs.total_vote_ok_msg < 2 ^ 31 - 1))
    → is_committed (vote s (some r) n).1.msg_type ≡ true
    → is_committed (vote s' (some r') n).1.msg_type ≡ true
    → AllIn ids (vote s (some r) n).1.received_vote_msg
    → AllIn ids (vote s' (some r') n).1.received_vote_msg
    → f + 1 + ok_votes s.msg_logs.vote_msgs + ok_votes s'.msg_logs.vote_msgs
      ≤ count_if (voted_in_both (vote s (some r) n).1 (vote s' (some r') n).1) ids
        + s.msg_logs.total_vote_ok_msg
        + s'.msg_logs.total_vote_ok_msg
two_commits_share_voters ids f s s' r r' n size w w' c c' a a' =
    let m = (vote s (some r) n).1.received_vote_msg in
    let m' = (vote s' (some r') n).1.received_vote_msg in
    let proof = vote-committed_proof s r n w.0 w.2 c in
    let proof' = vote-committed_proof s' r' n w'.0 w'.2 c' in
    omega (
      arith,
      size,
      w.1,
      w'.1,
      proof.1,
      proof'.1,
      count_if-holds_at ref_ok ids m proof.0 a,
      count_if-holds_at ref_ok ids m' proof'.0 a',
      count_if-overlap (holds_at ref_ok m) (holds_at ref_ok m') ids,
    )
