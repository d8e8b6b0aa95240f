-- ===== src/Tests/Collating.antt =====
-- Collate messages: Collate and FillHoleVoteMsgs.
use pa_bft.Base.{
  string_key, ◌+◌, ◌*◌, ◌≤◌, ◌≡◌, ◌↔◌, ◌⊎◌, refl, true, false, [], ◌∷◌, some, arith, count_if,
}
use pa_bft.Base.Map.{contains, insert, lookup}
use pa_bft.Base.Copy.{copy}
use pa_bft.Message.{CollateMsg, MsgType, is_committed}
use pa_bft.State.{State, create_state, verify_msg}
use pa_bft.State.Voting.{vote, record_vote, vote_result}
use pa_bft.State.Collating.{collate, fill_hole_vote_msgs}
use pa_bft.State.Tally.{IsTallied, create_state-IsTallied, vote-IsTallied}
use pa_bft.State.Filling.{collate_commits_iff, refills, fill_hole_vote_msgs-collate_iff}
use pa_bft.Tests.Data.{fresh, vote_from, vote_a, vote_b, collate_from}

-- Two of four nodes have voted.
abbrev two_votes : State
two_votes = (vote (vote fresh (some vote_a) 4).0 (some vote_b) 4).0

two_votes-IsTallied : IsTallied two_votes
two_votes-IsTallied =
    vote-IsTallied (vote fresh (some vote_a) 4).0 (some vote_b) 4
      (vote-IsTallied fresh (some vote_a) 4 (create_state-IsTallied 0 "A" 4 1))

-- C repeats the two votes, decoded to other addresses.
abbrev repeated : CollateMsg
repeated = collate_from "C" MsgType.uncommitted (
    ("A", some (vote_from "A" 20 1 MsgType.vote))
    ∷ ("B", some (vote_from "B" 21 1 MsgType.vote))
    ∷ [])

collate_commits_iff_example : (is_committed (collate two_votes repeated).1.msg_type ≡ true) ↔ (
    (contains "C" two_votes.msg_logs.collate_msgs ≡ false)
    × (two_votes.view_id ≡ 0)
    × (two_votes.sequence_id ≡ 1)
    × ((repeated.msg_type ≡ MsgType.committed)
        ⊎ ((repeated.msg_type ≡ MsgType.uncommitted)
            × (2 * two_votes.f + 1 ≤ two_votes.msg_logs.total_vote_ok_msg))))
unfolding vote create_state contains insert record_vote vote_result verify_msg
collate_commits_iff_example = collate_commits_iff two_votes repeated (omega arith)

fill_hole_vote_msgs-collate_iff_example :
    let sum =
      two_votes.msg_logs.total_vote_ok_msg
      + count_if (refills repeated) two_votes.msg_logs.vote_msgs in
    ((is_committed (collate (fill_hole_vote_msgs two_votes repeated) repeated).1.msg_type ≡ true)
      ↔ (2 * two_votes.f + 1 ≤ sum))
    × ((fill_hole_vote_msgs two_votes repeated).msg_logs.vote_msgs ≡ two_votes.msg_logs.vote_msgs)
    × ((fill_hole_vote_msgs two_votes repeated).msg_logs.total_vote_ok_msg ≡ sum)
unfolding vote create_state contains insert record_vote vote_result verify_msg
fill_hole_vote_msgs-collate_iff_example =
    fill_hole_vote_msgs-collate_iff two_votes repeated two_votes-IsTallied.distinct (omega arith)
      (omega arith) refl refl refl refl

-- The two votes of four are announced as a quorum of three.
two_votes_are_enough :
    is_committed (collate (fill_hole_vote_msgs two_votes repeated) repeated).1.msg_type ≡ true
unfolding vote create_state contains insert record_vote vote_result verify_msg collate
    fill_hole_vote_msgs copy lookup
two_votes_are_enough = refl
