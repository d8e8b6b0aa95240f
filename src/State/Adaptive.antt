-- ===== src/State/Adaptive.antt =====
-- The adaptive quorum of VoteAQ and CollateAQ (pbft/consensus/pbft_impl.go) and the one that the
-- README states.
use pa_bft.Base.{
  ℕ, ◌+◌, ◌*◌, ◌-◌, ◌/◌, ◌%◌, ◌^◌, ◌≤◌, ◌<◌, ◌≡◌, ◌↔◌, true, arith, length, ℤ, pos, ◌-ℤ◌, ◌+ℤ◌,
  count_if-le-length,
}
use pa_bft.Message.{is_committed}
use pa_bft.State.{State}
use pa_bft.State.Voting.{vote_aq, adaptive_quorum}
use pa_bft.State.Collating.{collate_aq}
use pa_bft.State.Tally.{ok_votes, entry_ok, IsTallied}

-- README: AQ = f - b + ⌈(n - f + 1) / 2⌉, for n nodes, at most f faults and b detected ones.
abbrev pub readme_quorum : ℕ → ℕ → ℕ → ℤ
readme_quorum n f b = pos f -ℤ pos b +ℤ pos ((n - f + 1 + 1) / 2)

-- With f = (n - 1) / 3, and the nodes that sent no vote as the detected faults, the quorum of the code
-- is that of the README exactly for the tables of 3f + 1 nodes.
pub adaptive_quorum-readme_iff :
    (n received : ℕ)
    → 0 < n
    → n < 2 ^ 31
    → received ≤ n
    → (adaptive_quorum ((n - 1) / 3) n received ≡ readme_quorum n ((n - 1) / 3) (n - received))
      ↔ (n % 3 ≡ 1)
adaptive_quorum-readme_iff n received h small le = ground arith

-- `VoteAQ` on a tallied log of at most n votes, n the size of the table: COMMITTED exactly when at
-- most 2f nodes are silent and 2f + 1 less the silent ones sent a VOTE.
pub vote_aq_commits_iff :
    (s : State) (n : ℕ)
    → IsTallied s
    → s.f < 2 ^ 29
    → n < 2 ^ 31
    → length s.msg_logs.vote_msgs ≤ n
    → (is_committed (vote_aq s n).0.msg_type ≡ true) ↔ (
        (n ≤ 2 * s.f + length s.msg_logs.vote_msgs)
        × (2 * s.f + 1 + length s.msg_logs.vote_msgs ≤ ok_votes s.msg_logs.vote_msgs + n))
unfolding vote_aq
vote_aq_commits_iff s n t smallf small le =
    ground (arith, count_if-le-length entry_ok s.msg_logs.vote_msgs)

-- `CollateAQ` takes the silent nodes from the counter of collate messages, and the VOTEs from the same
-- counter as `VoteAQ`: with c collate messages, COMMITTED exactly when n is at most 2f + c and 2f + 1
-- is at most the VOTEs and the n - c silent nodes together.
pub collate_aq_commits_iff :
    (s : State) (n : ℕ)
    → s.f < 2 ^ 29
    → n < 2 ^ 31
    → s.msg_logs.total_collate_msg ≤ n
    → s.msg_logs.total_vote_ok_msg < 2 ^ 31
    → (is_committed (collate_aq s n).0.msg_type ≡ true) ↔ (
        (n ≤ 2 * s.f + s.msg_logs.total_collate_msg)
        × (2 * s.f + 1 + s.msg_logs.total_collate_msg ≤ s.msg_logs.total_vote_ok_msg + n))
unfolding collate_aq
collate_aq_commits_iff s n smallf small le smallok = ground arith
