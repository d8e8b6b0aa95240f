-- ===== src/Node.antt =====
-- pbft/network/node.go: the state of a node, and the view and the epoch that pbft/network/view.go
-- keeps in it. The keys of the node and of its peers, and its connections, are not modelled. The two
-- arrays of 1000 counters are functions with a test of the index.
pub mod Primary
pub mod Execute
pub mod Log
pub mod Order
pub mod Rounds
pub mod Threads
pub mod Handlers
pub mod Handling
pub mod Starting
pub mod Routing
pub mod Checkpoint
pub mod Following
pub mod Fills
pub mod Untouched
pub mod Holes
pub mod Dropping
pub mod Cutting
pub mod Renewing
pub mod Installing
pub mod Timers
pub mod Expiry
pub mod Expiring
pub mod Waiting
pub mod Chain
pub mod Progress
pub mod Agreement
pub mod Dispatch
pub mod ViewChanging
pub mod Filling
use pa_bft.Base.{
  ℕ, ◌*◌, ◌<◌, String, Option, none, some, Bool, true, false, List, [], length, ltb, ◌==◌,
  if◌then◌else◌,
}
use pa_bft.Base.Map.{Map}
use pa_bft.Base.Chan.{Chan, make_chan}
use pa_bft.Base.Outcome.{Outcome, ok, panic}
use pa_bft.Message.{
  Message, PrepareMsg, ReqPrepareMsgs, VoteMsg, CollateMsg, ViewChangeMsg, NewViewMsg,
  CheckPointMsg,
}
use pa_bft.State.{State, Error}
use pa_bft.ViewChange.{VcState}

-- `addr` is the pointer: `GetViewChange` compares pointers. The key is nil until it is loaded.
pub record NodeInfo : Type 0 where
  pub addr : ℕ
  pub node_id : String
  pub url : String
  pub pub_key : Option String

pub record View : Type 0 where
  pub id : ℕ
  pub primary : Option NodeInfo

-- What `Broadcast` is given; the JSON text that it makes of it is not modelled.
pub data Payload : Type 0 where
  prepares : ReqPrepareMsgs → Payload
  votes : VoteMsg → Payload
  collates : CollateMsg → Payload
  view_changes : ViewChangeMsg → Payload
  new_views : NewViewMsg → Payload

pub record MsgOut : Type 0 where
  pub ip : String
  pub msg : Payload
  pub path : String

pub record Node : Type 0 where
  pub my_info : NodeInfo
  pub node_table : List NodeInfo
  pub seed_node_tables : List (List NodeInfo)
  pub view : View
  pub epoch_id : ℕ
  pub states : Map ℕ State
  pub vc_states : Map ℕ VcState
  pub committed_msgs : Map ℕ PrepareMsg
  pub committed : ℕ → ℕ
  pub prepared : ℕ → ℕ
  pub total_consensus : ℕ
  pub is_view_changing : Bool
  pub next_candidate_idx : ℕ
  pub msg_entrance : Chan Message
  pub msg_delivery : Chan Message
  pub msg_execution : Chan (Option PrepareMsg)
  pub msg_outbound : Chan MsgOut
  pub msg_error : Chan (List Error)
  pub view_msg_entrance : Chan Message
  pub check_point_msgs_log : Map ℕ (Map String CheckPointMsg)
  pub stable_check_point : ℕ

-- The length of the arrays `Committed` and `Prepared`.
abbrev pub array_len : ℕ
array_len = 1000

-- An index that is negative has a pattern of 2 ^ 63 or more.
abbrev pub in_array : ℕ → Bool
in_array i = ltb i array_len

abbrev pub write : (ℕ → ℕ) → ℕ → ℕ → ℕ → ℕ
write a i v j = if i == j then v else a j
