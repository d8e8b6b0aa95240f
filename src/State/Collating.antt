-- ===== src/State/Collating.antt =====
-- pbft/consensus/pbft_impl.go: Collate, CollateAQ and FillHoleVoteMsgs.
use pa_bft.Base.{
  string_key, ℕ, ◌+◌, ◌*◌, String, Option, none, some, Bool, true, false, [], ◌∷◌, ◌==◌,
  if◌then◌else◌, pos, leb_ℤ, signed32, add32,
}
use pa_bft.Base.Copy.{copy}
use pa_bft.Base.Map.{Map, lookup, contains, insert}
use pa_bft.Message.{
  VoteRef, VoteMsgs, CollateMsg, MsgType, committed, uncommitted, is_vote, zero_collate_msg,
}
use pa_bft.State.{State, Error, collate_corrupted, set_bizantine, verify_msg}
use pa_bft.State.Voting.{collate_of, adaptive_quorum, reaches_quorum}

record_collate : State → CollateMsg → State
record_collate s c = record s {
  msg_logs = record s.msg_logs {
    collate_msgs = insert c.node_id c s.msg_logs.collate_msgs;
    total_collate_msg = add32 s.msg_logs.total_collate_msg 1;
  };
}

-- The switch on the type of the message; the default is the zero message.
collate_result : State → MsgType → CollateMsg
collate_result s committed = collate_of s committed
collate_result s uncommitted =
    record (collate_of s (
      if leb_ℤ (pos (2 * s.f + 1)) (signed32 s.msg_logs.total_vote_ok_msg)
      then committed
      else uncommitted)) { received_prepare = none }
collate_result s _ = zero_collate_msg

collate_new : State → CollateMsg → State × CollateMsg × Option Error
collate_new s c = elim (verify_msg s c.view_id c.sequence_id c.digest) [
  | some e ↦ ((set_bizantine c.node_id s).0, zero_collate_msg, some (collate_corrupted e c.node_id))
  | none ↦ (s, collate_result s c.msg_type, none)
]

unfoldable pub collate : State → CollateMsg → State × CollateMsg × Option Error
unfolding record_collate collate_result collate_new
collate s c =
    if contains c.node_id s.msg_logs.collate_msgs
    then ((set_bizantine c.node_id s).0, zero_collate_msg, none)
    else collate_new (record_collate s c) c

unfoldable pub collate_aq : State → ℕ → CollateMsg × Option Error
collate_aq s total_node = (
  collate_of s (
      if reaches_quorum s (adaptive_quorum s.f total_node s.msg_logs.total_collate_msg)
      then committed
      else uncommitted),
  none,
)

-- GetVoteMsgs: a new map with the entries of the log.
unfoldable pub get_vote_msgs : State → VoteMsgs
get_vote_msgs s = copy s.msg_logs.vote_msgs

-- GetCollateMsgs: likewise.
unfoldable pub get_collate_msgs : State → Map String CollateMsg
get_collate_msgs s = copy s.msg_logs.collate_msgs

-- `==` on two pointers.
abbrev pub same_ref : Option VoteRef → Option VoteRef → Bool
same_ref none none = true
same_ref (some a) (some b) = a.addr == b.addr
same_ref _ _ = false

-- `m[id]`: nil where the key is missing or holds nil.
abbrev pub vote_at : String → VoteMsgs → Option VoteRef
vote_at id m = get_or_nil (lookup id m)
  where
    get_or_nil : Option (Option VoteRef) → Option VoteRef
    get_or_nil none = none
    get_or_nil (some v) = v

-- `atomic.AddInt32(&state.MsgLogs.TotalVoteOKMsg, 1)`
abbrev pub count_ok : State → State
count_ok s = record s {
  msg_logs = record s.msg_logs { total_vote_ok_msg = add32 s.msg_logs.total_vote_ok_msg 1 };
}

-- One round of the loop of `FillHoleVoteMsgs`, at the node `id` whose vote in the log is `mine`. The
-- received vote is written into what `GetVoteMsgs` returns, a new map that nothing else sees, so of
-- the write only the counter is left.
unfoldable pub fill_one : String → Option VoteRef → Option VoteRef → State → State
fill_one id mine none s = s
fill_one id mine (some theirs) s =
    if same_ref mine (some theirs) then s else if is_vote theirs.msg.msg_type then count_ok s else s

unfoldable pub fill_loop : VoteMsgs → CollateMsg → State → State
fill_loop [] c s = s
fill_loop ((id, mine) ∷ rest) c s =
    fill_loop rest c (fill_one id mine (vote_at id c.received_vote_msg) s)

unfoldable pub fill_hole_vote_msgs : State → CollateMsg → State
unfolding fill_one fill_loop get_vote_msgs
fill_hole_vote_msgs s c = fill_loop (get_vote_msgs s) c s
