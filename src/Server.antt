-- ===== src/Server.antt =====
-- pbft/network/proxy_server.go and NewNode of pbft/network/node.go: a node and its server are made, a
-- received message is unpacked and put into an entrance of the node, and the first proposal is sent.
-- JSON and ECDSA are parameters (`Wire`).
pub mod Entering
pub mod Delivery
pub mod Cooling
pub mod Sending
pub mod Signing
pub mod Listening
pub mod Dialing
pub mod Genesis
pub mod Breaking
use text.Mathlib.Text.{◌==◌ as text_beq}
use pa_bft.Base.{
  int64_key, ℕ, suc, ◌*◌, ◌==◌, String, Option, none, some, Bool, true, false, not, List, [], ◌∷◌,
  length, sub64, if◌then◌else◌,
}
use pa_bft.Base.Chan.{make_chan, send}
use pa_bft.Base.Outcome.{Outcome, ok, panic, deref, sent, ◌>>=◌}
use pa_bft.Message.{
  RequestMsg, PrepareMsg, VoteRef, CollateMsg, ViewChangeMsg, NewViewMsg, Message, req_prepare,
  voted, collated, view_change, new_view,
}
use pa_bft.Node.{Node, NodeInfo, prepares}
use pa_bft.Server.Signing.{SignatureMsg, Ecdsa, verify}
use pa_bft.Node.Primary.{update_view_id, update_epoch_id, get_primary_info_by_id}
use pa_bft.Node.Threads.{Env, broadcast, prepare_msg_making, no_seed}

-- What json.Unmarshal makes of a text, whether it fails, and ECDSA. The pointers of a proposal may be
-- nil.
pub record Wire : Type 0 where
  pub unpack : String → SignatureMsg
  pub fails : String → Bool
  pub ecdsa : Ecdsa
  pub read_prepare : String → Option RequestMsg × Option PrepareMsg
  pub read_vote : String → VoteRef
  pub read_collate : String → CollateMsg
  pub read_view_change : String → ViewChangeMsg
  pub read_new_view : String → NewViewMsg

-- The message, whether it could be read, and whether its signature is right.
unfoldable pub deattach_signature_msg :
    Wire → NodeInfo → String → Outcome (SignatureMsg × Bool × Bool)
unfolding verify
deattach_signature_msg w sender msg =
    let raw = w.unpack msg in
    if w.fails msg then ok (raw, false, false) else (do
      right ← verify w.ecdsa sender.pub_key raw.r raw.s raw.marshalled_msg
      ok (raw, true, right))

-- `server.node.MsgEntrance <- &msg`
unfoldable pub enter : Node → Message → Outcome Node
enter node msg = do
  entrance ← sent (send node.msg_entrance msg)
  ok (record node { msg_entrance = entrance })

unfoldable pub enter_view : Node → Message → Outcome Node
enter_view node msg = do
  entrance ← sent (send node.view_msg_entrance msg)
  ok (record node { view_msg_entrance = entrance })

-- What is read off a message goes where its type says.
unfoldable pub sort_msg : Wire → Node → SignatureMsg → Outcome Node
unfolding enter enter_view
sort_msg w node raw =
    let text = raw.marshalled_msg in
    if text_beq raw.msg_type "/prepare"
    then (do
      pm ← deref (w.read_prepare text).1
      if pm.sequence_id == 0
          then ok node
          else enter node
              (req_prepare (record { request_msg = (w.read_prepare text).0; prepare_msg = pm })))
    else if text_beq raw.msg_type "/vote"
    then (if (w.read_vote text).msg.sequence_id == 0
        then ok node
        else enter node (voted (w.read_vote text)))
    else if text_beq raw.msg_type "/collate"
    then (if (w.read_collate text).sequence_id == 0
        then ok node
        else enter node (collated (w.read_collate text)))
    else if text_beq raw.msg_type "/viewchange"
    then enter_view node (view_change (w.read_view_change text))
    else if text_beq raw.msg_type "/newview"
    then enter_view node (new_view (w.read_new_view text))
    else ok node

-- One message of the loop of `receiveLoop`. That it could not be read, or that the signature is wrong,
-- is printed.
unfoldable pub receive : Wire → NodeInfo → Node → String → Outcome Node
unfolding deattach_signature_msg sort_msg
receive w sender node message = do
  (raw, read, right) ← deattach_signature_msg w sender message
  sort_msg w node raw

unfoldable pub new_node : NodeInfo → List NodeInfo → List (List NodeInfo) → ℕ → Outcome Node
unfolding update_view_id
new_node my_info node_table seed_node_tables view_id =
    update_view_id
      (record {
        my_info = my_info;
        node_table = node_table;
        seed_node_tables = seed_node_tables;
        view = record { id = 0; primary = none };
        epoch_id = 0;
        is_view_changing = false;
        next_candidate_idx = 10;
        states = [];
        vc_states = [];
        check_point_msgs_log = [];
        stable_check_point = 0;
        committed_msgs = [];
        committed = λ i. 0;
        prepared = λ i. 0;
        total_consensus = 0;
        msg_entrance = make_chan (length node_table * 100);
        msg_delivery = make_chan (length node_table * 100);
        msg_execution = make_chan (length node_table * 100);
        msg_outbound = make_chan (length node_table);
        msg_error = make_chan (length node_table);
        view_msg_entrance = make_chan (length node_table * 3);
      })
      view_id

pub record Server : Type 0 where
  pub url : String
  pub node : Node

-- The first entry with the id.
unfoldable pub find_node : String → List NodeInfo → Option NodeInfo
find_node node_id [] = none
find_node node_id (info ∷ rest) =
    if text_beq info.node_id node_id then some info else find_node node_id rest

-- An unknown id gives a nil server.
unfoldable pub new_server :
    String → List NodeInfo → List (List NodeInfo) → ℕ → Outcome (Option Server)
unfolding find_node new_node
new_server node_id node_table seed_node_tables view_id = elim (find_node node_id node_table) [
  | none ↦ ok none
  | some info ↦ (do
    node ← new_node info node_table seed_node_tables view_id
    ok (some (record { url = info.url; node = node })))
]

unfoldable pub send_genesis_msg_if_primary : Env → Node → ℕ → Outcome Node
unfolding update_view_id update_epoch_id get_primary_info_by_id broadcast prepare_msg_making
send_genesis_msg_if_primary env node now = do
  viewed ← update_view_id node 0
  let dated = update_epoch_id viewed 0
  primary ← get_primary_info_by_id dated dated.view.id
  if text_beq primary.node_id dated.my_info.node_id
      then broadcast dated
          (prepares (
            prepare_msg_making env "Op1" "Client1" dated.view.id 1 dated.my_info.node_id no_seed
              dated.epoch_id now))
          "/prepare"
      else ok dated
