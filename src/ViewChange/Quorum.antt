-- ===== src/ViewChange/Quorum.antt =====
-- When a view change is announced (ViewChange of pbft/consensus/pbft_view_impl.go).
use text.Mathlib.TextPositions.{eq_refl}
use pa_bft.Base.{
  string_key, ℕ, suc, ◌+◌, ◌*◌, ◌-◌, ◌^◌, ◌≤◌, ◌<◌, ◌≡◌, String, Option, none, some, true, List, [],
  ◌∷◌, arith, length, ltb, leb, ◌&&◌, if◌then◌else◌,
}
use pa_bft.Base.Map.{contains, insert, length-insert, contains-insert}
use pa_bft.Base.Keys.{IsDistinct, insert-IsDistinct}
use pa_bft.Base.Copy.{copy_self}
use pa_bft.Message.{ViewChangeMsg, NewViewMsg}
use pa_bft.ViewChange.{
  VcState, create_view_change_state, view_change, view_change_all, get_view_change_msgs, cons_some,
}

abbrev pub senders : VcState → ℕ
senders vcs = length vcs.view_change_msg_logs.view_change_msgs

-- One entry for each sender, a counter of the entries, and a flag that is set once they are 2f + 1.
pub record IsCounted (vcs : VcState) : Type 0 where
  pub distinct : IsDistinct vcs.view_change_msg_logs.view_change_msgs
  pub total : vcs.view_change_msg_logs.total_view_change_msg ≡ senders vcs
  pub sent :
      vcs.view_change_msg_logs.msg_sent ≡ (if leb (2 * vcs.f + 1) (senders vcs) then 1 else 0)

pub create_view_change_state-IsCounted :
    (id : String) (n next stable seq : ℕ)
    → IsCounted (create_view_change_state id n next stable seq)
unfolding create_view_change_state
create_view_change_state-IsCounted id n next stable seq = ground arith

-- A VIEW-CHANGE message below the range of the int32 counter, new or repeated, keeps one entry for each
-- sender, a counter that counts them, and a flag that is set exactly once they are 2f + 1.
pub view_change-IsCounted :
    (vcs : VcState) (m : ViewChangeMsg) (now : ℕ)
    → senders vcs < 2 ^ 31 - 1
    → IsCounted vcs
    → IsCounted (view_change vcs m now).0
unfolding view_change
view_change-IsCounted vcs m now small c = ground (
  arith,
  length-insert m.node_id m vcs.view_change_msg_logs.view_change_msgs,
  insert-IsDistinct m.node_id m vcs.view_change_msg_logs.view_change_msgs,
)

-- A NEW-VIEW message comes out exactly at the message that brings the distinct senders to 2f + 1.
view_change_step :
    (vcs : VcState) (m : ViewChangeMsg) (now : ℕ)
    → senders vcs < 2 ^ 31 - 1
    → IsCounted vcs
    → let vcs' = (view_change vcs m now).0 in
      (vcs'.f ≡ vcs.f)
      × (senders vcs' ≡ (
          if contains m.node_id vcs.view_change_msg_logs.view_change_msgs
          then senders vcs
          else suc (senders vcs)))
      × (length (cons_some (view_change vcs m now).1 []) ≡ (
          if ltb (senders vcs) (2 * vcs.f + 1) && leb (2 * vcs.f + 1) (senders vcs') then 1 else 0))
unfolding view_change
view_change_step vcs m now small c =
    ground (arith, length-insert m.node_id m vcs.view_change_msg_logs.view_change_msgs)

length-cons_some {ℓ} :
    {A : Type ℓ} (o : Option A) (xs : List A)
    → length (cons_some o xs) ≡ length (cons_some o []) + length xs
length-cons_some none xs = omega arith
length-cons_some (some x) xs = omega arith

senders-view_change_all :
    (vcs : VcState) (ms : List (ViewChangeMsg × ℕ))
    → IsCounted vcs
    → senders vcs + length ms < 2 ^ 31
    → senders vcs ≤ senders (view_change_all vcs ms).0
unfolding view_change_all
senders-view_change_all vcs [] c small = omega arith
senders-view_change_all vcs ((m, now) ∷ ms) c small =
    let step = view_change_step vcs m now (omega arith) c in
    ground (
      arith,
      step,
      senders-view_change_all (view_change vcs m now).0 ms
          (view_change-IsCounted vcs m now (omega arith) c) (ground (arith, step)),
    )

-- However many VIEW-CHANGE messages come, in whatever order and however often repeated, one NEW-VIEW
-- message comes out if they bring the distinct senders from at most 2f to 2f + 1 or more, and none
-- otherwise.
pub view_change_all-announces_once :
    (vcs : VcState) (ms : List (ViewChangeMsg × ℕ))
    → IsCounted vcs
    → senders vcs + length ms < 2 ^ 31
    → length (view_change_all vcs ms).1 ≡ (
        if leb (senders vcs) (2 * vcs.f) && ltb (2 * vcs.f) (senders (view_change_all vcs ms).0)
        then 1
        else 0)
unfolding view_change_all
view_change_all-announces_once vcs [] c small = ground arith
view_change_all-announces_once vcs ((m, now) ∷ ms) c small =
    let vcs' = (view_change vcs m now).0 in
    let step = view_change_step vcs m now (omega arith) c in
    let c' = view_change-IsCounted vcs m now (omega arith) c in
    let small' : senders vcs' + length ms < 2 ^ 31 = ground (arith, step) in
    ground (
      arith,
      step,
      length-cons_some (view_change vcs m now).1 (view_change_all vcs' ms).1,
      view_change_all-announces_once vcs' ms c' small',
      senders-view_change_all vcs' ms c' small',
    )

-- The NEW-VIEW message carries the VIEW-CHANGE messages of exactly 2f + 1 distinct nodes, the new one
-- among them, and the state's own sequence number and candidate.
pub view_change-new_view_proof :
    (vcs : VcState) (m : ViewChangeMsg) (now : ℕ) (nv : NewViewMsg)
    → senders vcs < 2 ^ 31 - 1
    → IsCounted vcs
    → (view_change vcs m now).1 ≡ some nv
    → IsDistinct nv.set_view_change_msgs
      × (length nv.set_view_change_msgs ≡ 2 * vcs.f + 1)
      × (contains m.node_id nv.set_view_change_msgs ≡ true)
      × (nv.sequence_id ≡ vcs.sequence_id)
      × (nv.next_candidate_idx ≡ vcs.next_candidate_idx)
unfolding view_change get_view_change_msgs
view_change-new_view_proof vcs m now nv small c e = ground (
  arith,
  length-insert m.node_id m vcs.view_change_msg_logs.view_change_msgs,
  insert-IsDistinct m.node_id m vcs.view_change_msg_logs.view_change_msgs c.distinct,
  contains-insert m.node_id m.node_id m vcs.view_change_msg_logs.view_change_msgs,
  eq_refl m.node_id,
  copy_self (insert m.node_id m vcs.view_change_msg_logs.view_change_msgs),
)
