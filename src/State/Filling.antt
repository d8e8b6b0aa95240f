-- ===== src/State/Filling.antt =====
-- FillHoleVoteMsgs and Collate (pbft/consensus/pbft_impl.go).
use pa_bft.Base.{
  string_key, ◌+◌, ◌*◌, ◌%◌, ◌^◌, ◌≤◌, ◌<◌, ◌≡◌, ◌↔◌, ◌⊎◌, refl, Bool, true, false, arith, length,
  if◌then◌else◌, count_if, count_if-le-length, String, Option, none, some, not, ◌&&◌, [], ◌∷◌,
}
use pa_bft.Base.Copy.{copy_self}
use pa_bft.Base.Map.{contains}
use pa_bft.Message.{VoteRef, VoteMsgs, CollateMsg, committed, uncommitted, is_vote, is_committed}
use pa_bft.State.{State, verify_msg}
use pa_bft.State.Collating.{
  collate, fill_hole_vote_msgs, fill_loop, fill_one, get_vote_msgs, same_ref, vote_at,
}
use pa_bft.Base.Keys.{IsDistinct}

-- `Collate` answers COMMITTED exactly when the message is the sender's first, is for this view and
-- sequence number, and either says COMMITTED itself or says UNCOMMITTED while the counter of VOTE
-- votes, a number below 2 ^ 31, is 2f + 1 or more.
pub collate_commits_iff :
    (s : State) (c : CollateMsg)
    → s.msg_logs.total_vote_ok_msg < 2 ^ 31
    → (is_committed (collate s c).1.msg_type ≡ true) ↔ (
        (contains c.node_id s.msg_logs.collate_msgs ≡ false)
        × (s.view_id ≡ c.view_id)
        × (s.sequence_id ≡ c.sequence_id)
        × ((c.msg_type ≡ committed)
            ⊎ ((c.msg_type ≡ uncommitted) × (2 * s.f + 1 ≤ s.msg_logs.total_vote_ok_msg))))
unfolding collate verify_msg
collate_commits_iff s c small = ground arith

-- A copy of a log with one entry for each node is the log, in the same order.
get_vote_msgs_self :
    (s : State) → IsDistinct s.msg_logs.vote_msgs → get_vote_msgs s ≡ s.msg_logs.vote_msgs
unfolding get_vote_msgs
get_vote_msgs_self s distinct = copy_self s.msg_logs.vote_msgs distinct

-- The entries of the log at which a message brings another pointer to a VOTE of the same node.
abbrev pub refills : CollateMsg → String × Option VoteRef → Bool
refills c (id, mine) = refill mine (vote_at id c.received_vote_msg)
  where
    refill : Option VoteRef → Option VoteRef → Bool
    refill mine none = false
    refill mine (some r) = not (same_ref mine (some r)) && is_vote r.msg.msg_type

fill_one_lem :
    (id : String) (mine : Option VoteRef) (c : CollateMsg) (s : State)
    → let s' = fill_one id mine (vote_at id c.received_vote_msg) s in
      (s' ≡ record s {
        msg_logs = record s.msg_logs { total_vote_ok_msg = s'.msg_logs.total_vote_ok_msg };
      })
      × (s.msg_logs.total_vote_ok_msg < 2 ^ 32
          → s'.msg_logs.total_vote_ok_msg
            ≡ (s.msg_logs.total_vote_ok_msg + (if refills c (id, mine) then 1 else 0)) % 2 ^ 32)
unfolding fill_one
fill_one_lem id mine c s = ground arith

fill_loop_lem :
    (m : VoteMsgs) (c : CollateMsg) (s : State)
    → s.msg_logs.total_vote_ok_msg < 2 ^ 32
    → fill_loop m c s ≡ record s {
      msg_logs = record s.msg_logs {
        total_vote_ok_msg = (s.msg_logs.total_vote_ok_msg + count_if (refills c) m) % 2 ^ 32;
      };
    }
unfolding fill_loop
fill_loop_lem [] c s small = ground arith
fill_loop_lem ((id, mine) ∷ m) c s small = ground (
  arith,
  fill_one_lem id mine c s,
  fill_loop_lem m c (fill_one id mine (vote_at id c.received_vote_msg) s),
)

-- `FillHoleVoteMsgs` writes no vote into the log: all that it changes is the counter of VOTE votes,
-- which it raises, as an int32, by one for each entry of the log at which the message brings another
-- pointer to a VOTE of the same node.
pub fill_hole_vote_msgs_lem :
    (s : State) (c : CollateMsg)
    → IsDistinct s.msg_logs.vote_msgs
    → s.msg_logs.total_vote_ok_msg < 2 ^ 32
    → fill_hole_vote_msgs s c ≡ record s {
      msg_logs = record s.msg_logs {
        total_vote_ok_msg =
            (s.msg_logs.total_vote_ok_msg + count_if (refills c) s.msg_logs.vote_msgs) % 2 ^ 32;
      };
    }
unfolding fill_hole_vote_msgs
fill_hole_vote_msgs_lem s c distinct small =
    rw (get_vote_msgs_self s distinct) (fill_loop_lem s.msg_logs.vote_msgs c s small)

-- The collate phase counts votes twice. At any log with one entry for each node, of fewer than 2 ^ 30
-- entries and with the counter of VOTE votes below 2 ^ 30, also one that earlier messages have raised:
-- after `FillHoleVoteMsgs`, an UNCOMMITTED message that is its sender's first, for this view and sequence
-- number, is answered COMMITTED exactly when the counter, and the entries of the log at which the message
-- brings another pointer to a VOTE of the same node, are together 2f + 1 or more. The log is as it was,
-- and the counter is their sum.
pub fill_hole_vote_msgs-collate_iff :
    (s : State) (c : CollateMsg)
    → IsDistinct s.msg_logs.vote_msgs
    → s.msg_logs.total_vote_ok_msg < 2 ^ 30
    → length s.msg_logs.vote_msgs < 2 ^ 30
    → contains c.node_id s.msg_logs.collate_msgs ≡ false
    → s.view_id ≡ c.view_id
    → s.sequence_id ≡ c.sequence_id
    → c.msg_type ≡ uncommitted
    → let sum = s.msg_logs.total_vote_ok_msg + count_if (refills c) s.msg_logs.vote_msgs in
      ((is_committed (collate (fill_hole_vote_msgs s c) c).1.msg_type ≡ true)
        ↔ (2 * s.f + 1 ≤ s.msg_logs.total_vote_ok_msg + count_if (refills c) s.msg_logs.vote_msgs))
      × ((fill_hole_vote_msgs s c).msg_logs.vote_msgs ≡ s.msg_logs.vote_msgs)
      × ((fill_hole_vote_msgs s c).msg_logs.total_vote_ok_msg ≡ sum)
fill_hole_vote_msgs-collate_iff s c distinct counter small new v q u =
    let m = s.msg_logs.vote_msgs in
    let k = (s.msg_logs.total_vote_ok_msg + count_if (refills c) m) % 2 ^ 32 in
    let filled : State = record s { msg_logs = record s.msg_logs { total_vote_ok_msg = k } } in
    let refilled_le = count_if-le-length (refills c) m in
    rw (fill_hole_vote_msgs_lem s c distinct (omega arith)) (
      ground (arith, collate_commits_iff filled c (omega (arith, refilled_le)), refilled_le),
      refl,
      omega (arith, refilled_le),
    )
