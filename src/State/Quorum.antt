-- ===== src/State/Quorum.antt =====
-- When `Vote` announces COMMITTED (pbft/consensus/pbft_impl.go).
use pa_bft.Base.{
  refl, string_key, ℕ, ◌+◌, ◌*◌, ◌-◌, ◌^◌, ◌≤◌, ◌<◌, ◌≡◌, ◌↔◌, some, true, false, List, [], ◌∷◌,
  arith, length, count_if, count_if-le-length, ltb, leb, ◌&&◌, not, ◌==◌, ◌∙◌, if◌then◌else◌,
  Bool-cases, inl, inr,
}
use pa_bft.Base.Map.{contains, length-insert}
use pa_bft.Base.Keys.{count_if-insert_new}
use pa_bft.Message.{VoteRef, CollateMsg, is_vote, is_committed}
use pa_bft.State.{State, verify_msg}
use pa_bft.State.Voting.{vote, record_vote, vote_result}
use pa_bft.State.Tally.{ok_votes, entry_ok, IsTallied, vote-state}

-- The vote is for this view and this sequence number.
abbrev pub Matches : State → VoteRef → Type 0
Matches s r = (s.view_id ≡ r.msg.view_id) × (s.sequence_id ≡ r.msg.sequence_id)

-- The votes that the counters can hold as int32 values.
abbrev pub IsSmall : State → Type 0
IsSmall s = (length s.msg_logs.vote_msgs < 2 ^ 31) × (2 * s.f + 1 < 2 ^ 31)

-- On a log that is tallied, `Vote` answers COMMITTED exactly when the sender had no vote in the log,
-- the vote is a VOTE for this view and sequence number, and 2f nodes had sent a VOTE before it.
pub vote_commits_iff :
    (s : State) (r : VoteRef) (n : ℕ)
    → IsTallied s
    → length s.msg_logs.vote_msgs < 2 ^ 31 - 1
    → (is_committed (vote s (some r) n).1.msg_type ≡ true) ↔ (
        (contains r.msg.node_id s.msg_logs.vote_msgs ≡ false)
        × (s.view_id ≡ r.msg.view_id)
        × (s.sequence_id ≡ r.msg.sequence_id)
        × (is_vote r.msg.msg_type ≡ true)
        × (ok_votes s.msg_logs.vote_msgs ≡ 2 * s.f))
unfolding vote record_vote vote_result verify_msg
vote_commits_iff s r n t small = ground (arith, count_if-le-length entry_ok s.msg_logs.vote_msgs)

-- The votes of one sequence number, in the order in which the node's thread takes them, each with
-- the number of nodes of the table; the answers of `Vote`.
unfoldable pub vote_all : State → List VoteRef → ℕ → State × List CollateMsg
vote_all s [] n = (s, [])
vote_all s (r ∷ rs) n =
    let (s', answer, err) = vote s (some r) n in
    let (s'', answers) = vote_all s' rs n in (s'', answer ∷ answers)

abbrev pub committed_answers : List CollateMsg → ℕ
committed_answers = count_if (λ c. is_committed c.msg_type)

-- What one vote does to the log, with `Vote` shut from here on.
pub vote_log :
    (s : State) (r : VoteRef) (n : ℕ)
    → let s' = (vote s (some r) n).0 in
      let new = not (contains r.msg.node_id s.msg_logs.vote_msgs) in
      (length s'.msg_logs.vote_msgs ≡ length s.msg_logs.vote_msgs + (if new then 1 else 0))
      × (ok_votes s'.msg_logs.vote_msgs
          ≡ ok_votes s.msg_logs.vote_msgs + (if new && is_vote r.msg.msg_type then 1 else 0))
      × (s'.f ≡ s.f)
      × (s'.view_id ≡ s.view_id)
      × (s'.sequence_id ≡ s.sequence_id)
unfolding record_vote
vote_log s r n = elim (Bool-cases (contains r.msg.node_id s.msg_logs.vote_msgs)) [
  | inl old ↦ rw (vote-state s r n, old) (ground arith)
  | inr new ↦
      rw (vote-state s r n, new)
        (ground (
          arith,
          length-insert r.msg.node_id (some r) s.msg_logs.vote_msgs,
          count_if-insert_new entry_ok r.msg.node_id (some r) s.msg_logs.vote_msgs new,
        ))
]

abbrev pub AllMatch : State → List VoteRef → Type 0
AllMatch s [] = Unit {0}
AllMatch s (r ∷ rs) = Matches s r × AllMatch s rs

AllMatch-frame :
    (s s' : State) (rs : List VoteRef)
    → s'.view_id ≡ s.view_id
    → s'.sequence_id ≡ s.sequence_id
    → AllMatch s rs
    → AllMatch s' rs
AllMatch-frame s s' [] v q m = tt
AllMatch-frame s s' (r ∷ rs) v q m = ((v ∙ m.0.0, q ∙ m.0.1), AllMatch-frame s s' rs v q m.1)

-- The counter of VOTE votes.
abbrev pub counter : State → ℕ
counter s = s.msg_logs.total_vote_ok_msg

-- What one vote does to the counter, and its answer, whatever the counter is.
counter-vote :
    (s : State) (r : VoteRef) (n : ℕ)
    → counter s < 2 ^ 31 - 1
    → Matches s r
    → let new = not (contains r.msg.node_id s.msg_logs.vote_msgs) in
      (counter (vote s (some r) n).0 ≡ counter s + (if new && is_vote r.msg.msg_type then 1 else 0))
      × (is_committed (vote s (some r) n).1.msg_type
          ≡ (new && is_vote r.msg.msg_type && (counter s == 2 * s.f)))
unfolding vote record_vote vote_result verify_msg
counter-vote s r n small m = (
  (elim (Bool-cases (contains r.msg.node_id s.msg_logs.vote_msgs)) [
    | inl old ↦ rw (vote-state s r n, old) (ground arith)
    | inr new ↦ rw (vote-state s r n, new) (ground arith)
  ]),
  ground arith,
)

counter-vote_all :
    (s : State) (rs : List VoteRef) (n : ℕ)
    → counter s + length rs < 2 ^ 31
    → AllMatch s rs
    → (counter s ≤ counter (vote_all s rs n).0)
      × (counter (vote_all s rs n).0 + ok_votes s.msg_logs.vote_msgs
          ≡ counter s + ok_votes (vote_all s rs n).0.msg_logs.vote_msgs)
unfolding vote_all
counter-vote_all s [] n small m = (omega arith, refl)
counter-vote_all s (r ∷ rs) n small m =
    let s' = (vote s (some r) n).0 in
    let one = counter-vote s r n (omega arith) m.0 in
    let log = vote_log s r n in
    let rest =
      counter-vote_all s' rs n (ground (arith, one)) (AllMatch-frame s s' rs log.3 log.4 m.1) in
    (ground (arith, one, rest), ground (arith, one, log, rest))

-- However many votes for this view and sequence number come, in whatever order and however often
-- repeated, while the counter of VOTE votes and they are fewer than 2 ^ 31, at any log: `Vote` answers
-- COMMITTED once if they bring the counter from at most 2f to 2f + 1 or more, and never otherwise. The
-- counter grows by as much as the number of VOTEs in the log does: it counts them after the votes if it
-- did before, and is otherwise as far from their number as it was.
pub vote_all-commits_once :
    (s : State) (rs : List VoteRef) (n : ℕ)
    → s.msg_logs.total_vote_ok_msg + length rs < 2 ^ 31
    → AllMatch s rs
    → (committed_answers (vote_all s rs n).1 ≡ (
        if ltb (2 * s.f) (vote_all s rs n).0.msg_logs.total_vote_ok_msg
          && leb s.msg_logs.total_vote_ok_msg (2 * s.f)
        then 1
        else 0))
      × ((vote_all s rs n).0.msg_logs.total_vote_ok_msg + ok_votes s.msg_logs.vote_msgs
          ≡ s.msg_logs.total_vote_ok_msg + ok_votes (vote_all s rs n).0.msg_logs.vote_msgs)
unfolding vote_all
vote_all-commits_once s [] n small m = (ground arith, refl)
vote_all-commits_once s (r ∷ rs) n small m =
    let s' = (vote s (some r) n).0 in
    let one = counter-vote s r n (omega arith) m.0 in
    let log = vote_log s r n in
    let matched = AllMatch-frame s s' rs log.3 log.4 m.1 in
    let less : counter s' + length rs < 2 ^ 31 = ground (arith, one) in
    (
      ground (
        arith,
        one,
        log,
        vote_all-commits_once s' rs n less matched,
        counter-vote_all s' rs n less matched,
      ),
      (counter-vote_all s (r ∷ rs) n small m).1,
    )
