-- ===== src/Message.antt =====
-- pbft/consensus/pbft_msg_types.go: the messages of the protocol. A pointer that may be nil is an
-- `Option`; an int64 is its bit pattern. The votes that a message or a log holds are pointers, and
-- `FillHoleVoteMsgs` compares them, so a `VoteRef` carries an address beside the vote.
use pa_bft.Base.{ℕ, String, Option, none, Bool, true, false, []}
use pa_bft.Base.Map.{Map}

pub record RequestMsg : Type 0 where
  pub timestamp : ℕ
  pub client_id : String
  pub operation : String
  pub payload : String
  pub sequence_id : ℕ

pub record ReplyMsg : Type 0 where
  pub view_id : ℕ
  pub timestamp : ℕ
  pub client_id : String
  pub node_id : String
  pub result : String

pub record PrepareMsg : Type 0 where
  pub view_id : ℕ
  pub sequence_id : ℕ
  pub digest : String
  pub epoch_id : ℕ
  pub node_id : String
  pub seed : ℕ

-- `unknown` is any other value that a message on the wire may hold.
pub data MsgType : Type 0 where
  vote reject nullmsg committed uncommitted : MsgType
  unknown : ℕ → MsgType

abbrev pub is_vote : MsgType → Bool
is_vote vote = true
is_vote _ = false

abbrev pub is_committed : MsgType → Bool
is_committed committed = true
is_committed _ = false

pub record VoteMsg : Type 0 where
  pub view_id : ℕ
  pub sequence_id : ℕ
  pub prepare_msg : Option PrepareMsg
  pub digest : String
  pub node_id : String
  pub msg_type : MsgType

pub record VoteRef : Type 0 where
  pub addr : ℕ
  pub msg : VoteMsg

-- map[string]*VoteMsg
abbrev pub VoteMsgs : Type 0
VoteMsgs = Map String (Option VoteRef)

pub record CollateMsg : Type 0 where
  pub received_prepare : Option PrepareMsg
  pub received_vote_msg : VoteMsgs
  pub sent_vote_msg : Option VoteMsg
  pub view_id : ℕ
  pub sequence_id : ℕ
  pub digest : String
  pub msg_type : MsgType
  pub node_id : String

pub record ReqPrepareMsgs : Type 0 where
  pub request_msg : Option RequestMsg
  pub prepare_msg : PrepareMsg

pub record CheckPointMsg : Type 0 where
  pub sequence_id : ℕ
  pub digest : String
  pub node_id : String

pub record SetPm : Type 0 where
  pub prepare_msg : Option PrepareMsg
  pub vote_msgs : VoteMsgs

pub record ViewChangeMsg : Type 0 where
  pub node_id : String
  pub sequence_id : ℕ
  pub next_candidate_idx : ℕ
  pub stable_check_point : ℕ
  pub set_p : Map ℕ SetPm

pub record NewViewMsg : Type 0 where
  pub node_id : String
  pub sequence_id : ℕ
  pub next_candidate_idx : ℕ
  pub epoch_id : ℕ
  pub set_view_change_msgs : Map String ViewChangeMsg
  pub min_s : ℕ

-- What the channels that Go types `interface{}` carry.
pub data Message : Type 0 where
  req_prepare : ReqPrepareMsgs → Message
  voted : VoteRef → Message
  collated : CollateMsg → Message
  view_change : ViewChangeMsg → Message
  new_view : NewViewMsg → Message

-- The zero values that Go gives to a variable with no initializer.
abbrev pub zero_vote_msg : VoteMsg
zero_vote_msg = record {
  view_id = 0;
  sequence_id = 0;
  prepare_msg = none;
  digest = "";
  node_id = "";
  msg_type = vote;
}

abbrev pub zero_collate_msg : CollateMsg
zero_collate_msg = record {
  received_prepare = none;
  received_vote_msg = [];
  sent_vote_msg = none;
  view_id = 0;
  sequence_id = 0;
  digest = "";
  msg_type = vote;
  node_id = "";
}
