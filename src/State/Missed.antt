-- ===== src/State/Missed.antt =====
-- Votes after which `Vote` (pbft/consensus/pbft_impl.go) never announces COMMITTED: it compares the
-- count with 2f + 1 by `==`, and counts a vote before it verifies it.
use pa_bft.Base.{
  string_key, ℕ, ◌+◌, ◌*◌, ◌^◌, ◌<◌, ◌≡◌, refl, true, false, List, [], ◌∷◌, arith, length, some,
  Bool-cases, inl, inr,
}
use pa_bft.Base.Map.{contains}
use pa_bft.Message.{VoteRef, is_vote, is_committed}
use pa_bft.State.{State}
use pa_bft.State.Voting.{vote}
use pa_bft.State.Tally.{ok_votes, IsTallied, vote-IsTallied}
use pa_bft.State.Quorum.{vote_all, committed_answers, vote_commits_iff, vote_log, Matches}

-- Once more than 2f nodes have a VOTE in the log, no later vote of any kind is answered COMMITTED.
pub vote_all-past_quorum :
    (s : State) (rs : List VoteRef) (n : ℕ)
    → IsTallied s
    → length s.msg_logs.vote_msgs + length rs < 2 ^ 31
    → 2 * s.f < ok_votes s.msg_logs.vote_msgs
    → committed_answers (vote_all s rs n).1 ≡ 0
unfolding vote_all
vote_all-past_quorum s [] n t small over = refl
vote_all-past_quorum s (r ∷ rs) n t small over =
    let s' = (vote s (some r) n).0 in
    ground (
      arith,
      vote_log s r n,
      vote_commits_iff s r n t (omega arith),
      vote_all-past_quorum s' rs n (vote-IsTallied s (some r) n t) (ground (arith, vote_log s r n))
          (ground (arith, vote_log s r n)),
    )

-- With exactly 2f nodes that sent a VOTE, a new sender's VOTE for another view or another sequence
-- number uses the quorum up: neither it nor any vote after it is answered COMMITTED.
pub mismatched_vote_blocks_commit :
    (s : State) (r : VoteRef) (rs : List VoteRef) (n : ℕ)
    → IsTallied s
    → length s.msg_logs.vote_msgs + length rs + 1 < 2 ^ 31
    → ok_votes s.msg_logs.vote_msgs ≡ 2 * s.f
    → contains r.msg.node_id s.msg_logs.vote_msgs ≡ false
    → is_vote r.msg.msg_type ≡ true
    → ¬ Matches s r
    → committed_answers (vote_all s (r ∷ rs) n).1 ≡ 0
unfolding vote_all
mismatched_vote_blocks_commit s r rs n t small at new isv other =
    let s' = (vote s (some r) n).0 in
    let rest =
      vote_all-past_quorum s' rs n (vote-IsTallied s (some r) n t) (ground (arith, vote_log s r n))
        (ground (arith, vote_log s r n)) in
    elim (Bool-cases (is_committed (vote s (some r) n).1.msg_type)) [
      | inl c ↦ let h = (vote_commits_iff s r n t (omega arith)).0 c in absurd (other (h.1, h.2))
      | inr c ↦ ground arith
    ]
