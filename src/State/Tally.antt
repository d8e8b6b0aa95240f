-- ===== src/State/Tally.antt =====
-- The counters of the log against the votes in it (Vote, Prepare and Collate of
-- pbft/consensus/pbft_impl.go).
use pa_bft.Base.{
  string_key, ℕ, ◌%◌, ◌^◌, ◌≡◌, refl, String, Option, none, some, Bool, false, arith, length,
  count_if, if◌then◌else◌, Bool-cases, inl, inr,
}
use pa_bft.Base.Map.{contains, length-insert}
use pa_bft.Base.Keys.{IsDistinct, insert-IsDistinct, count_if-insert_new}
use pa_bft.Message.{VoteRef, VoteMsgs, PrepareMsg, RequestMsg, CollateMsg, is_vote}
use pa_bft.State.{State, create_state, prepare, set_bizantine}
use pa_bft.State.Voting.{vote, record_vote}
use pa_bft.State.Collating.{collate}

abbrev pub ref_ok : Option VoteRef → Bool
ref_ok none = false
ref_ok (some r) = is_vote r.msg.msg_type

abbrev pub entry_ok : String × Option VoteRef → Bool
entry_ok x = ref_ok x.1

-- How many nodes have a vote of type VOTE in the log.
abbrev pub ok_votes : VoteMsgs → ℕ
ok_votes = count_if entry_ok

-- Each node has one entry in the log, and the int32 counters count the entries.
pub record IsTallied (s : State) : Type 0 where
  pub distinct : IsDistinct s.msg_logs.vote_msgs
  pub total : s.msg_logs.total_vote_msg ≡ length s.msg_logs.vote_msgs % 2 ^ 32
  pub ok : s.msg_logs.total_vote_ok_msg ≡ ok_votes s.msg_logs.vote_msgs % 2 ^ 32

pub create_state-IsTallied :
    (view : ℕ) (id : String) (n seq : ℕ) → IsTallied (create_state view id n seq)
unfolding create_state
create_state-IsTallied view id n seq = record { distinct = tt; total = refl; ok = refl }

pub record_vote-IsTallied :
    (s : State) (r : VoteRef)
    → contains r.msg.node_id s.msg_logs.vote_msgs ≡ false
    → IsTallied s
    → IsTallied (record_vote s r)
unfolding record_vote
record_vote-IsTallied s r new t = record {
  distinct = insert-IsDistinct r.msg.node_id (some r) s.msg_logs.vote_msgs t.distinct;
  total = ground (arith, t.total, length-insert r.msg.node_id (some r) s.msg_logs.vote_msgs);
  ok =
      ground
        (arith, t.ok, count_if-insert_new entry_ok r.msg.node_id (some r) s.msg_logs.vote_msgs new);
}

-- The log after a vote: a repeated vote changes nothing, and a new one is recorded.
pub vote-state :
    (s : State) (r : VoteRef) (n : ℕ)
    → (vote s (some r) n).0
      ≡ (if contains r.msg.node_id s.msg_logs.vote_msgs then s else record_vote s r)
unfolding vote set_bizantine
vote-state s r n = ground arith

-- Whatever vote comes, new or repeated, verified or not, the counters still count the log.
pub vote-IsTallied :
    (s : State) (v : Option VoteRef) (n : ℕ) → IsTallied s → IsTallied (vote s v n).0
unfolding vote
vote-IsTallied s none n t = t
vote-IsTallied s (some r) n t = elim (Bool-cases (contains r.msg.node_id s.msg_logs.vote_msgs)) [
  | inl old ↦ rw (vote-state s r n, old) t
  | inr new ↦ rw (vote-state s r n, new) (record_vote-IsTallied s r new t)
]

pub prepare-IsTallied :
    (digest : Option RequestMsg → Option String) (s : State) (pm : PrepareMsg)
    (rm : Option RequestMsg)
    → IsTallied s
    → IsTallied (prepare digest s pm rm).0
unfolding prepare
prepare-IsTallied digest s pm none t = record { distinct = t.distinct; total = t.total; ok = t.ok }
prepare-IsTallied digest s pm (some rm) t = ground arith

pub collate-IsTallied : (s : State) (c : CollateMsg) → IsTallied s → IsTallied (collate s c).0
unfolding collate set_bizantine
collate-IsTallied s c t = ground arith
