-- ===== src/Tests/Voting.antt =====
-- Votes: Prepare, Vote, VoteAQ and ClearMsgLogs.
use pa_bft.Base.{
  map, string_key, ℕ, ◌+◌, ◌*◌, ◌≤◌, ◌%◌, ◌≡◌, ◌↔◌, refl, String, Option, none, some, true, false,
  [], ◌∷◌, arith, length, count_if,
}
use pa_bft.Base.Map.{contains, insert}
use pa_bft.Base.Overlap.{elem}
use pa_bft.Message.{RequestMsg, MsgType, is_vote, is_committed}
use pa_bft.State.{State, create_state, prepare, verify_msg, set_bizantine}
use pa_bft.State.Voting.{vote, vote_aq, record_vote, vote_result, adaptive_quorum}
use pa_bft.State.Tally.{ok_votes, IsTallied, create_state-IsTallied, vote-IsTallied}
use pa_bft.State.Quorum.{vote_all, committed_answers, vote_commits_iff, vote_all-commits_once}
use pa_bft.State.Intersection.{two_commits_share_voters, voted_in_both}
use pa_bft.State.Missed.{mismatched_vote_blocks_commit}
use pa_bft.State.Equivocation.{prepare_all, choice, prepare_all-votes_each}
use pa_bft.State.Preparing.{prepare_ignores_request}
use pa_bft.State.Adaptive.{readme_quorum, adaptive_quorum-readme_iff, vote_aq_commits_iff}
use pa_bft.Tests.Data.{table_ids, proposal, request, vote_from, fresh, vote_a, vote_b, vote_c}

fresh-IsTallied : IsTallied fresh
fresh-IsTallied = create_state-IsTallied 0 "A" 4 1

-- The votes of A and B are in.
abbrev two_votes : State
two_votes = (vote_all fresh (vote_a ∷ vote_b ∷ []) 4).0

two_votes-IsTallied : IsTallied two_votes
unfolding vote_all
two_votes-IsTallied =
    vote-IsTallied (vote fresh (some vote_a) 4).0 (some vote_b) 4
      (vote-IsTallied fresh (some vote_a) 4 fresh-IsTallied)

-- Another node, at which B and D voted before.
abbrev other_votes : State
other_votes = (vote_all fresh (vote_from "D" 13 1 MsgType.vote ∷ vote_b ∷ []) 4).0

other_votes-IsTallied : IsTallied other_votes
unfolding vote_all
other_votes-IsTallied =
    vote-IsTallied (vote fresh (some (vote_from "D" 13 1 MsgType.vote)) 4).0 (some vote_b) 4
      (vote-IsTallied fresh (some (vote_from "D" 13 1 MsgType.vote)) 4 fresh-IsTallied)

three_votes_commit : committed_answers (vote_all fresh (vote_a ∷ vote_b ∷ vote_c ∷ []) 4).1 ≡ 1
unfolding vote_all vote create_state contains insert record_vote vote_result verify_msg
three_votes_commit = refl

vote_all-commits_once_example :
    (committed_answers (vote_all fresh (vote_a ∷ vote_b ∷ vote_b ∷ vote_c ∷ []) 4).1 ≡ 1)
    × ((vote_all fresh (vote_a ∷ vote_b ∷ vote_b ∷ vote_c ∷ []) 4).0.msg_logs.total_vote_ok_msg + 0
        ≡ 3)
unfolding vote_all vote create_state contains insert record_vote vote_result verify_msg
    set_bizantine
vote_all-commits_once_example =
    vote_all-commits_once fresh (vote_a ∷ vote_b ∷ vote_b ∷ vote_c ∷ []) 4 (omega arith)
      (omega arith)

vote_commits_iff_example : (is_committed (vote two_votes (some vote_c) 4).1.msg_type ≡ true) ↔ (
    (contains "C" two_votes.msg_logs.vote_msgs ≡ false)
    × (two_votes.view_id ≡ 0)
    × (two_votes.sequence_id ≡ 1)
    × (is_vote MsgType.vote ≡ true)
    × (ok_votes two_votes.msg_logs.vote_msgs ≡ 2 * two_votes.f))
unfolding vote_all vote create_state contains insert record_vote vote_result verify_msg
vote_commits_iff_example = vote_commits_iff two_votes vote_c 4 two_votes-IsTallied (omega arith)

two_votes_commit : is_committed (vote two_votes (some vote_c) 4).1.msg_type ≡ true
unfolding vote_all vote create_state contains insert record_vote vote_result verify_msg
two_votes_commit = refl

other_votes_commit : is_committed (vote other_votes (some vote_a) 4).1.msg_type ≡ true
unfolding vote_all vote create_state contains insert record_vote vote_result verify_msg
other_votes_commit = refl

two_commits_share_voters_example :
    1 + 1 + ok_votes two_votes.msg_logs.vote_msgs + ok_votes other_votes.msg_logs.vote_msgs
    ≤ count_if
        (voted_in_both (vote two_votes (some vote_c) 4).1 (vote other_votes (some vote_a) 4).1)
        table_ids
      + two_votes.msg_logs.total_vote_ok_msg
      + other_votes.msg_logs.total_vote_ok_msg
unfolding vote_all vote create_state contains insert record_vote vote_result verify_msg elem
two_commits_share_voters_example =
    two_commits_share_voters table_ids 1 two_votes other_votes vote_c vote_a 4 refl
      (two_votes-IsTallied.distinct, refl, omega arith)
      (other_votes-IsTallied.distinct, refl, omega arith) two_votes_commit other_votes_commit
      (refl, (refl, (refl, tt))) (refl, (refl, (refl, tt)))

-- D's vote names sequence number 2, and C's good vote comes after it.
mismatched_vote_blocks_commit_example :
    committed_answers (vote_all two_votes (vote_from "D" 13 2 MsgType.vote ∷ vote_c ∷ []) 4).1 ≡ 0
unfolding vote_all vote create_state contains insert record_vote vote_result verify_msg
mismatched_vote_blocks_commit_example =
    mismatched_vote_blocks_commit two_votes (vote_from "D" 13 2 MsgType.vote) (vote_c ∷ []) 4
      two_votes-IsTallied (omega arith) refl refl refl (λ h. absurd (omega (arith, h.1)))

-- Every request and the missing one have a digest.
abbrev digest_of : Option RequestMsg → Option String
digest_of none = some "null"
digest_of (some r) = some r.operation

prepare_ignores_request_example :
    let first = prepare digest_of fresh (proposal 1) (some (request "Op1")) in
    (first.1.digest ≡ "null")
    × ((prepare digest_of first.0
          (record (proposal 1) { digest = "e" })
          (some (request "Op2"))).1.digest
        ≡ "Op1")
unfolding create_state
prepare_ignores_request_example =
    prepare_ignores_request digest_of fresh (proposal 1) (record (proposal 1) { digest = "e" })
      (request "Op1") (request "Op2") "null" "Op1" refl refl

adaptive_quorum-readme_iff_example :
    (adaptive_quorum 4 13 10 ≡ readme_quorum 13 4 3) ↔ (◌≡◌ {A = ℕ} (13 % 3) 1)
adaptive_quorum-readme_iff_example =
    adaptive_quorum-readme_iff 13 10 (omega arith) (omega arith) (omega arith)

vote_aq_commits_iff_example : (is_committed (vote_aq two_votes 4).0.msg_type ≡ true) ↔ (
    (4 ≤ 2 * two_votes.f + length two_votes.msg_logs.vote_msgs)
    × (2 * two_votes.f + 1 + length two_votes.msg_logs.vote_msgs
        ≤ ok_votes two_votes.msg_logs.vote_msgs + 4))
unfolding vote_all vote create_state contains insert record_vote vote_result verify_msg
vote_aq_commits_iff_example =
    vote_aq_commits_iff two_votes 4 two_votes-IsTallied (omega arith) (omega arith) (omega arith)

-- Two proposals for sequence number 1 that state different digests.
prepare_all-votes_each_example :
    map choice
      (prepare_all
        (λ r. some "d")
        ((proposal 1, request "Op1") ∷ (record (proposal 1) { digest = "e" }, request "Op2") ∷ [])
        fresh).1
    ≡ some (proposal 1) ∷ some (record (proposal 1) { digest = "e" }) ∷ []
unfolding create_state
prepare_all-votes_each_example =
    prepare_all-votes_each (λ r. some "d")
      ((proposal 1, request "Op1") ∷ (record (proposal 1) { digest = "e" }, request "Op2") ∷ [])
      fresh (λ r. ("d", refl)) (refl, (refl, tt))
