-- ===== src/Node/Installing.antt =====
-- What GetViewChange and GetNewView (pbft/network/view.go) leave behind.
use pa_bft.Base.{
  ◌⊎◌, ◌<◌, ◌^◌, int64_key, ℕ, ◌≡◌, Bool, true, false, String, Option, none, some, List, [], ◌∷◌,
  ◌++◌, ◌==◌, arith, if◌then◌else◌, sub64, div64, rem64, get_elem?,
}
use mathlib.Core.List.{append-nil}
use text.Mathlib.Text.{◌==◌ as text_beq}
use pa_bft.Base.Map.{lookup, insert}
use pa_bft.Base.Outcome.{ok, bind-returns, deref}
use pa_bft.Message.{ViewChangeMsg, NewViewMsg}
use pa_bft.ViewChange.{view_change}
use pa_bft.Node.{Node, NodeInfo, MsgOut, new_views}
use pa_bft.Node.Primary.{get_primary_info_by_id, update_view_id, update_epoch_id}
use pa_bft.Node.Threads.{Env, broadcast, start_thread_if_not_exists}
use pa_bft.Node.Starting.{is_some, start_thread_if_not_exists_lem, start_thread_if_not_exists-frame}
use pa_bft.Node.Untouched.{SameNode, fill_hole-SameNode, drop_from-SameNode}
use pa_bft.Node.Filling.{fill_hole, find_stable_checkpoint}
use pa_bft.Node.Checkpoint.{AllBelow, SomeAt, find_stable_checkpoint-max}
use pa_bft.Node.ViewChanging.{
  Finish, returned, waits, register_new_view, propose_first, vc_state_for, enter_view_change,
  drop_from, get_view_change, get_new_view, install_view, announce_new_view, next_candidate,
}

-- The NEW-VIEW message that goes out, if one does.
abbrev pub announcement : Bool → String → Option NewViewMsg → List MsgOut
announcement true url (some nv) =
    record {
      ip = url;
      msg = new_views (record nv {
        min_s = find_stable_checkpoint nv;
        epoch_id = div64 (find_stable_checkpoint nv) 10;
      });
      path = "/newview";
    }
    ∷ []
announcement _ url _ = []

install_view_lem :
    (node node' : Node) (nv : NewViewMsg)
    → install_view node nv ≡ ok node'
    → SameNode node node'
      × (node'.stable_check_point ≡ nv.min_s)
      × (node'.epoch_id ≡ div64 (sub64 nv.sequence_id 1) 10)
      × (node'.view.id ≡ rem64 (sub64 nv.sequence_id 1) 10)
unfolding install_view update_view_id update_epoch_id get_primary_info_by_id
install_view_lem node node' nv h =
    let (filled, rest, e) = bind-returns (fill_hole node nv) _ h in
    let a = fill_hole-SameNode node filled nv e in ground arith

vc_state_for-SameNode : (node : Node) (seq addr : ℕ) → SameNode node (vc_state_for node seq addr).0
unfolding vc_state_for
vc_state_for-SameNode node seq addr = ground arith

enter_view_change_lem :
    (node node' : Node) (answer : Option NewViewMsg)
    → enter_view_change node answer ≡ ok node'
    → SameNode
        (record node { is_view_changing = if is_some answer then true else node.is_view_changing })
        node'
unfolding enter_view_change
enter_view_change_lem node node' none h = ground arith
enter_view_change_lem node node' (some nv) h =
    drop_from-SameNode (record node { is_view_changing = true }) node' nv.sequence_id h

announce_new_view_lem :
    (node node' : Node) (answer : Option NewViewMsg)
    → announce_new_view node answer ≡ ok node'
    → (candidate : NodeInfo) × (get_elem? node.node_table node.next_candidate_idx ≡ some candidate)
      × (node'.is_view_changing ≡ node.is_view_changing)
      × (node'.msg_outbound.queue
          ≡ node.msg_outbound.queue
            ++ announcement (node.my_info.addr == candidate.addr) node.my_info.url answer)
unfolding announce_new_view get_primary_info_by_id broadcast
announce_new_view_lem node node' answer h =
    let (candidate, rest, e) =
      bind-returns (get_primary_info_by_id node node.next_candidate_idx) _ h in
    (candidate, ground arith, ground arith, ground (arith, append-nil node.msg_outbound.queue))

-- The node with the message counted.
abbrev pub counted : Node → ViewChangeMsg → ℕ → ℕ → Node
counted node m addr now =
    let (made, vcs) = vc_state_for node m.sequence_id addr in
    record made { vc_states = insert m.sequence_id (view_change vcs m now).0 made.vc_states }

-- Min_S is the highest stable checkpoint of the set of a NEW-VIEW message, or 0.
abbrev pub IsHighest : Option NewViewMsg → Type 0
IsHighest none = Unit {0}
IsHighest (some nv) =
    AllBelow (find_stable_checkpoint nv) nv.set_view_change_msgs
    × ((find_stable_checkpoint nv ≡ 0) ⊎ SomeAt (find_stable_checkpoint nv) nv.set_view_change_msgs)

-- The checkpoints of a NEW-VIEW message, if there is one, are not above this number.
abbrev pub AreBelow : ℕ → Option NewViewMsg → Type 0
AreBelow top none = Unit {0}
AreBelow top (some nv) = AllBelow top nv.set_view_change_msgs

answer-IsHighest :
    (top : ℕ) (answer : Option NewViewMsg) → top < 2 ^ 63 → AreBelow top answer → IsHighest answer
answer-IsHighest top none small below = tt
answer-IsHighest top (some nv) small below = find_stable_checkpoint-max nv top small below

-- The node after the message is counted: as it is, or, in a view change, without what is dropped.
abbrev pub Clears : Node → Option NewViewMsg → Node → Type 0
Clears node none cleared = cleared ≡ node
Clears node (some nv) cleared =
    drop_from (record node { is_view_changing = true }) nv.sequence_id ≡ ok cleared

enter_view_change-Clears :
    (node cleared : Node) (answer : Option NewViewMsg)
    → enter_view_change node answer ≡ ok cleared
    → Clears node answer cleared
unfolding enter_view_change
enter_view_change-Clears node cleared none h = ground arith
enter_view_change-Clears node cleared (some nv) h = h

announce_new_view-frame :
    (node node' : Node) (answer : Option NewViewMsg)
    → announce_new_view node answer ≡ ok node'
    → node' ≡ record node { msg_outbound = node'.msg_outbound }
unfolding announce_new_view get_primary_info_by_id broadcast
announce_new_view-frame node node' answer h = ground arith

-- `GetViewChange` that returns, where no checkpoint of the set that the message completes, if it does, is
-- negative: the candidate is a node of the table. Where the message completes the quorum, the node goes
-- into the view change and drops what it holds from the sequence number of the new view on; otherwise
-- only the message is counted. In both cases no more than the channel to the senders changes after that.
-- A NEW-VIEW message goes out exactly where the quorum is complete and the candidate is this node itself,
-- with Min_S the highest stable checkpoint of the set, or 0, and the epoch of Min_S.
pub get_view_change_lem :
    (node node' : Node) (m : ViewChangeMsg) (addr now top : ℕ)
    → top < 2 ^ 63
    → AreBelow top (view_change (vc_state_for node m.sequence_id addr).1 m now).1
    → get_view_change node m addr now ≡ ok node'
    → let answer = (view_change (vc_state_for node m.sequence_id addr).1 m now).1 in
      (candidate : NodeInfo) × (get_elem? node.node_table node.next_candidate_idx ≡ some candidate)
      × (node'.is_view_changing ≡ (if is_some answer then true else node.is_view_changing))
      × (node'.msg_outbound.queue
          ≡ node.msg_outbound.queue
            ++ announcement (node.my_info.addr == candidate.addr) node.my_info.url answer)
      × IsHighest answer
      × (cleared : Node) × Clears (counted node m addr now) answer cleared
      × (node' ≡ record cleared { msg_outbound = node'.msg_outbound })
unfolding get_view_change
get_view_change_lem node node' m addr now top small below h =
    let made = (vc_state_for node m.sequence_id addr).0 in
    let (vcs', answer) = view_change (vc_state_for node m.sequence_id addr).1 m now in
    let before = counted node m addr now in
    let (cleared, rest, e) = bind-returns (enter_view_change before answer) _ h in
    let a = vc_state_for-SameNode node m.sequence_id addr in
    let b = enter_view_change_lem before cleared answer e in
    let (candidate, at, state, out) = announce_new_view_lem cleared node' answer rest in
    (
      candidate,
      ground arith,
      ground arith,
      ground arith,
      answer-IsHighest top answer small below,
      cleared,
      enter_view_change-Clears before cleared answer e,
      announce_new_view-frame cleared node' answer rest,
    )

register_new_view_lem :
    (node : Node) (nv : NewViewMsg) (addr : ℕ)
    → SameNode
        (record node { next_candidate_idx = nv.next_candidate_idx })
        (register_new_view node nv addr)
unfolding register_new_view
register_new_view_lem node nv addr = ground (
  arith,
  vc_state_for-SameNode (record node { next_candidate_idx = nv.next_candidate_idx }) nv.sequence_id
      addr,
)

propose_first_lem :
    (env : Env) (node node' : Node) (nv : NewViewMsg) (primary : NodeInfo) (now : ℕ) (end : Finish)
    → propose_first env node nv primary now ≡ ok (node', end)
    → (node' ≡ record node { msg_outbound = node'.msg_outbound })
      × (end ≡ (if text_beq primary.node_id node.my_info.node_id then waits else returned))
unfolding propose_first broadcast
propose_first_lem env node node' nv primary now end h = ground arith

-- `GetNewView` that comes to its end: the next candidate of the message is a node of the table. The node
-- is out of the view change, its checkpoint is Min_S, its view and epoch are those of the sequence
-- number before the new view's, and the new view's sequence number has a thread. At the candidate itself
-- it then waits for ever.
pub get_new_view_lem :
    (env : Env) (node node' : Node) (nv : NewViewMsg) (addr now : ℕ) (end : Finish)
    → get_new_view env node nv addr now ≡ ok (node', end)
    → (primary : NodeInfo) × (get_elem? node.node_table nv.next_candidate_idx ≡ some primary)
      × (end ≡ (if text_beq primary.node_id node.my_info.node_id then waits else returned))
      × (node'.is_view_changing ≡ false)
      × (node'.stable_check_point ≡ nv.min_s)
      × (node'.epoch_id ≡ div64 (sub64 nv.sequence_id 1) 10)
      × (node'.view.id ≡ rem64 (sub64 nv.sequence_id 1) 10)
      × (is_some (lookup nv.sequence_id node'.states) ≡ true)
unfolding get_new_view
get_new_view_lem env node node' nv addr now end h =
    let start : Node = record node { is_view_changing = true } in
    let seq = nv.sequence_id in
    let (dropped, h1, e1) = bind-returns (drop_from start seq) _ h in
    let registered = register_new_view dropped nv addr in
    let (installed, h2, e2) = bind-returns (install_view registered nv) _ h1 in
    let (primary, h3, e3) =
      bind-returns (deref (get_elem? installed.node_table installed.next_candidate_idx)) _ h2 in
    let ((threaded, thread), h4, e4) =
      bind-returns (start_thread_if_not_exists (next_candidate installed seq) seq) _ h3 in
    let a = drop_from-SameNode start dropped seq e1 in
    let b = register_new_view_lem dropped nv addr in
    let c = install_view_lem registered installed nv e2 in
    let d =
      start_thread_if_not_exists-frame (next_candidate installed seq) threaded seq thread e4 in
    let t =
      (start_thread_if_not_exists_lem (next_candidate installed seq) threaded seq thread e4).0 in
    let e =
      propose_first_lem env (record threaded { is_view_changing = false }) node' nv primary now end
        h4 in
    (
      primary,
      ground arith,
      ground arith,
      ground arith,
      ground arith,
      ground arith,
      ground arith,
      ground arith,
    )
