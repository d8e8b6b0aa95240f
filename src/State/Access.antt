-- ===== src/State/Access.antt =====
-- The accessors of the state and its quorum predicates (pbft/consensus/pbft_impl.go), and the two
-- resets (pbft/consensus/pbft_view_impl.go).
use pa_bft.Base.{
  string_key, ℕ, ◌+◌, ◌*◌, ◌-◌, ◌/◌, ◌≡◌, refl, String, none, some, Bool, true, false, [], ◌∷◌,
  arith, pos, leb_ℤ, signed32, not, if◌then◌else◌,
}
use pa_bft.Base.Map.{contains}
use pa_bft.Message.{RequestMsg, PrepareMsg, VoteRef, VoteMsgs, zero_collate_msg}
use pa_bft.State.{State, set_bizantine}
use pa_bft.State.Voting.{vote}
use pa_bft.State.Tally.{ok_votes}

abbrev pub set_req_msg : State → RequestMsg → State
set_req_msg s request = record s { msg_logs = record s.msg_logs { req_msg = some request } }

abbrev pub set_prepare_msg : State → PrepareMsg → State
set_prepare_msg s pm = record s { msg_logs = record s.msg_logs { prepare_msg = some pm } }

abbrev pub set_sequence_id : State → ℕ → State
set_sequence_id s seq = record s { sequence_id = seq }

abbrev pub set_digest : State → String → State
set_digest s d = record s { msg_logs = record s.msg_logs { digest = d } }

abbrev pub set_view_id : State → ℕ → State
set_view_id s view = record s { view_id = view }

abbrev pub set_receive_prepare_time : State → ℕ → State
set_receive_prepare_time s now = record s { received_prepare_time = now }

-- `prepared` has its tests commented out. `committed` asks for more than 2f + 1 collate messages.
unfoldable pub prepared : State → Bool
prepared s = true

unfoldable pub committed : State → Bool
unfolding prepared
committed s =
    if not (prepared s)
    then false
    else not (leb_ℤ (signed32 s.msg_logs.total_collate_msg) (pos (2 * s.f + 1)))

-- `for seq := range VoteMsgs { VoteMsgs[seq] = nil }`: the keys stay.
nil_votes : VoteMsgs → VoteMsgs
nil_votes [] = []
nil_votes ((k, v) ∷ m) = (k, none) ∷ nil_votes m

unfoldable pub clear_msg_logs : State → State
unfolding nil_votes
clear_msg_logs s = record s {
  msg_logs = record s.msg_logs {
    prepare_msg = none;
    vote_msgs = nil_votes s.msg_logs.vote_msgs;
    total_vote_msg = 0;
    total_collate_msg = 0;
  };
}

-- The argument `digest` is not used.
unfoldable pub redo_set_state : State → ℕ → String → ℕ → PrepareMsg → String → State
redo_set_state s view node_id tot_nodes pm digest = record s {
  view_id = view;
  node_id = node_id;
  msg_logs = record s.msg_logs { prepare_msg = some pm; total_vote_msg = 0; total_collate_msg = 0 };
  f = (tot_nodes - 1) / 3;
}

contains-nil_votes : (k : String) (m : VoteMsgs) → contains k (nil_votes m) ≡ contains k m
unfolding nil_votes contains
contains-nil_votes k [] = refl
contains-nil_votes k ((j, v) ∷ m) = ground (arith, contains-nil_votes k m)

ok_votes-nil_votes : (m : VoteMsgs) → ok_votes (nil_votes m) ≡ 0
unfolding nil_votes
ok_votes-nil_votes [] = refl
ok_votes-nil_votes ((k, v) ∷ m) = omega (arith, ok_votes-nil_votes m)

-- After `ClearMsgLogs` the log holds no VOTE, but a node that had voted before stays known: its next
-- vote, whatever it says, is dropped as a repetition, and the counter of VOTE votes keeps its value.
pub clear_msg_logs-drops_voters :
    (s : State) (r : VoteRef) (n : ℕ)
    → contains r.msg.node_id s.msg_logs.vote_msgs ≡ true
    → (ok_votes (clear_msg_logs s).msg_logs.vote_msgs ≡ 0)
      × ((clear_msg_logs s).msg_logs.total_vote_ok_msg ≡ s.msg_logs.total_vote_ok_msg)
      × (vote (clear_msg_logs s) (some r) n ≡ (clear_msg_logs s, zero_collate_msg, none))
unfolding clear_msg_logs vote set_bizantine
clear_msg_logs-drops_voters s r n known = (
  ok_votes-nil_votes s.msg_logs.vote_msgs,
  refl,
  rw (contains-nil_votes r.msg.node_id s.msg_logs.vote_msgs, known) refl,
)
