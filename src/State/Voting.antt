-- ===== src/State/Voting.antt =====
-- pbft/consensus/pbft_impl.go: Vote, which counts the votes as they arrive, and VoteAQ, which decides
-- with the adaptive quorum when the vote timer ends.
use pa_bft.Base.{
  string_key, ℕ, ◌+◌, ◌*◌, Option, none, some, Bool, ◌&&◌, if◌then◌else◌, ℤ, pos, ◌-ℤ◌, ◌+ℤ◌, leb_ℤ,
  ltb_ℤ, eqb_ℤ, signed32, add32, sub32,
}
use pa_bft.Base.Map.{contains, insert}
use pa_bft.Message.{VoteRef, CollateMsg, MsgType, committed, uncommitted, is_vote, zero_collate_msg}
use pa_bft.State.{State, Error, vote_corrupted, set_bizantine, verify_msg}

-- The `CollateMsg{...}` that `Vote`, `VoteAQ`, `Collate` and `CollateAQ` build from the logs.
abbrev pub collate_of : State → MsgType → CollateMsg
collate_of s t = record {
  received_prepare = s.msg_logs.prepare_msg;
  received_vote_msg = s.msg_logs.vote_msgs;
  sent_vote_msg = s.msg_logs.sent_vote_msg;
  view_id = s.view_id;
  sequence_id = s.sequence_id;
  digest = s.msg_logs.digest;
  msg_type = t;
  node_id = "";
}

-- The vote goes into the log and is counted before it is verified.
unfoldable pub record_vote : State → VoteRef → State
record_vote s r = record s {
  msg_logs = record s.msg_logs {
    vote_msgs = insert r.msg.node_id (some r) s.msg_logs.vote_msgs;
    total_vote_msg = add32 s.msg_logs.total_vote_msg 1;
    total_vote_ok_msg =
        if is_vote r.msg.msg_type
        then add32 s.msg_logs.total_vote_ok_msg 1
        else s.msg_logs.total_vote_ok_msg;
  };
}

-- The local `newTotalVoteOKMsg`: it stays 0 where the vote is not a VOTE.
abbrev pub new_total_vote_ok_msg : State → VoteRef → ℕ
new_total_vote_ok_msg s r = if is_vote r.msg.msg_type then s.msg_logs.total_vote_ok_msg else 0

-- What the counters say after a vote that was recorded and verified; `s` is the state with the vote.
unfoldable pub vote_result : State → VoteRef → ℕ → CollateMsg
vote_result s r tot_nodes =
    if eqb_ℤ (signed32 (new_total_vote_ok_msg s r)) (pos (2 * s.f + 1))
    then collate_of s committed
    else if eqb_ℤ (signed32 s.msg_logs.total_vote_msg) (pos tot_nodes)
        && ltb_ℤ (signed32 (new_total_vote_ok_msg s r)) (pos (2 * s.f + 1))
    then collate_of s uncommitted
    else zero_collate_msg

vote_new : State → VoteRef → ℕ → State × CollateMsg × Option Error
vote_new s r tot_nodes = elim (verify_msg s r.msg.view_id r.msg.sequence_id r.msg.digest) [
  | some e ↦
      ((set_bizantine r.msg.node_id s).0, zero_collate_msg, some (vote_corrupted e r.msg.node_id))
  | none ↦ (s, vote_result s r tot_nodes, none)
]

unfoldable pub vote : State → Option VoteRef → ℕ → State × CollateMsg × Option Error
unfolding vote_new
vote s none tot_nodes = (s, collate_of s uncommitted, none)
vote s (some r) tot_nodes =
    if contains r.msg.node_id s.msg_logs.vote_msgs
    then ((set_bizantine r.msg.node_id s).0, zero_collate_msg, none)
    else vote_new (record_vote s r) r tot_nodes

-- `2*state.F - int(byzantine) + 1`, where `byzantine` is an int32 difference.
abbrev pub adaptive_quorum : ℕ → ℕ → ℕ → ℤ
adaptive_quorum f total_node received = pos (2 * f) -ℤ signed32 (sub32 total_node received) +ℤ pos 1

-- The two tests of `VoteAQ` and `CollateAQ`: the VOTE votes reach the quorum, and it is at least 1.
abbrev pub reaches_quorum : State → ℤ → Bool
reaches_quorum s quorum =
    leb_ℤ quorum (signed32 s.msg_logs.total_vote_ok_msg) && leb_ℤ (pos 1) quorum

unfoldable pub vote_aq : State → ℕ → CollateMsg × Option Error
vote_aq s total_node = (
  collate_of s (
      if reaches_quorum s (adaptive_quorum s.f total_node s.msg_logs.total_vote_msg)
      then committed
      else uncommitted),
  none,
)
