-- ===== src/State.antt =====
-- pbft/consensus/pbft_impl.go: the state of the consensus on one sequence number. A method that
-- mutates `*State` returns the new record. The mutexes order the accesses to the maps; each method is
-- one step here.
pub mod Voting
pub mod Collating
pub mod Tally
pub mod Quorum
pub mod Access
pub mod Intersection
pub mod Preparing
pub mod Equivocation
pub mod Filling
pub mod Adaptive
pub mod Missed
use pa_bft.Base.{
  ℕ, ◌+◌, ◌-◌, ◌*◌, ◌/◌, String, Option, none, some, Bool, true, false, ◌&&◌, [], if◌then◌else◌, ℤ,
  pos, ◌-ℤ◌, ◌+ℤ◌, leb_ℤ, ltb_ℤ, eqb_ℤ, signed32, add32, sub32, ◌==◌,
}
use pa_bft.Base.Chan.{Chan, make_chan}
use pa_bft.Base.Map.{Map, lookup, contains, insert}
use pa_bft.Message.{
  Message, RequestMsg, PrepareMsg, VoteMsg, VoteRef, VoteMsgs, CollateMsg, MsgType, vote, reject,
  nullmsg, committed, uncommitted, unknown, is_vote, zero_vote_msg, zero_collate_msg,
}

pub record MsgLogs : Type 0 where
  pub req_msg : Option RequestMsg
  pub digest : String
  pub prepare_msg : Option PrepareMsg
  pub sent_vote_msg : Option VoteMsg
  pub vote_msgs : VoteMsgs
  pub collate_msgs : Map String CollateMsg
  -- int32
  pub total_vote_msg : ℕ
  pub total_vote_ok_msg : ℕ
  pub total_collate_msg : ℕ

-- `f` and `b` are counts of nodes. `received_prepare_time` is a clock reading, an argument of the
-- handlers.
pub record State : Type 0 where
  pub view_id : ℕ
  pub node_id : String
  pub msg_logs : MsgLogs
  pub sequence_id : ℕ
  pub msg_state : Chan Message
  pub msg_exit : Chan ℕ
  pub msg_exit1 : Chan ℕ
  pub timer_start_ch : Chan String
  pub timer_stop_ch : Chan String
  pub f : ℕ
  pub b : ℕ
  pub b_node : Map String ℕ
  pub received_prepare_time : ℕ

-- What `verifyMsg`, the methods and the sending goroutine report. A JSON encoding that fails is
-- `digest_failed`, and a connection that fails is `connection_failed`.
pub data VerifyError : Type 0 where
  wrong_view : ℕ → ℕ → VerifyError
  wrong_sequence : ℕ → ℕ → VerifyError

pub data Error : Type 0 where
  digest_failed connection_failed : Error
  vote_corrupted : VerifyError → String → Error
  collate_corrupted : VerifyError → String → Error

unfoldable pub create_state : ℕ → String → ℕ → ℕ → State
create_state view_id node_id tot_nodes seq_id = record {
  view_id = view_id;
  node_id = node_id;
  msg_logs = record {
    req_msg = none;
    digest = "";
    prepare_msg = none;
    sent_vote_msg = none;
    vote_msgs = [];
    collate_msgs = [];
    total_vote_msg = 0;
    total_vote_ok_msg = 0;
    total_collate_msg = 0;
  };
  sequence_id = seq_id;
  msg_state = make_chan (tot_nodes * 200);
  msg_exit = make_chan (tot_nodes * 100);
  msg_exit1 = make_chan (tot_nodes * 100);
  timer_start_ch = make_chan (tot_nodes * 100);
  timer_stop_ch = make_chan (tot_nodes * 100);
  f = (tot_nodes - 1) / 3;
  b = 0;
  b_node = [];
  received_prepare_time = 0;
}

-- The body of `SetBizantine` is commented out: it returns false and records nothing.
unfoldable pub set_bizantine : String → State → State × Bool
set_bizantine node_id s = (s, false)

-- The digest is compared, but a mismatch is not reported.
unfoldable pub verify_msg : State → ℕ → ℕ → String → Option VerifyError
verify_msg s view_id sequence_id digest_got =
    if s.view_id == view_id
    then (if s.sequence_id == sequence_id
        then none
        else some (wrong_sequence s.sequence_id sequence_id))
    else some (wrong_view s.view_id view_id)

-- `digest` is `Digest` of pbft/consensus/util.go, which is JSON and SHA-256.
module _ (digest : Option RequestMsg → Option String) where
  -- The vote for a request, once the digest is known. `SentVoteMsg` points to the local vote, so it
  -- sees the later write of REJECT.
  prepare_vote : State → PrepareMsg → RequestMsg → String → State × VoteMsg
  prepare_vote s prepare_msg request_msg d =
      let s' : State = record s {
        sequence_id = prepare_msg.sequence_id;
        msg_logs = record s.msg_logs {
          digest = d;
          req_msg = some request_msg;
          prepare_msg = some prepare_msg;
        };
      } in
      let verified = verify_msg s' prepare_msg.view_id prepare_msg.sequence_id prepare_msg.digest in
      let s'' : State = elim verified [
        | none ↦ s'
        | some e ↦ (set_bizantine prepare_msg.node_id s').0
      ] in
      let vote_msg : VoteMsg = record {
        view_id = s'.view_id;
        digest = d;
        prepare_msg = some prepare_msg;
        node_id = "";
        sequence_id = s'.sequence_id;
        msg_type = elim verified [ none ↦ vote | some e ↦ reject ];
      } in
      (record s'' { msg_logs = record s''.msg_logs { sent_vote_msg = some vote_msg } }, vote_msg)

  unfoldable pub prepare : State → PrepareMsg → Option RequestMsg → State × VoteMsg × Option Error
  unfolding prepare_vote verify_msg set_bizantine
  prepare s prepare_msg none =
      let vote_msg : VoteMsg = record {
        view_id = s.view_id;
        digest = "NULL";
        prepare_msg = some prepare_msg;
        node_id = "";
        sequence_id = s.sequence_id;
        msg_type = nullmsg;
      } in
      (
        record s {
          msg_logs = record s.msg_logs {
            digest = "NULL";
            req_msg = none;
            prepare_msg = some prepare_msg;
            sent_vote_msg = some vote_msg;
          };
        },
        vote_msg,
        none,
      )
  prepare s prepare_msg (some request_msg) = elim (digest s.msg_logs.req_msg) [
    | none ↦ (s, zero_vote_msg, some digest_failed)
    | some d ↦ let (s', vote_msg) = prepare_vote s prepare_msg request_msg d in (s', vote_msg, none)
  ]
