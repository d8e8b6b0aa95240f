-- ===== src/Node/Order.antt =====
-- executeMsg (pbft/network/node.go) executes in order, and ends.
use pa_bft.Base.{
  int64_key, ℕ, suc, ◌<◌, ◌≡◌, [], ◌∷◌, ◌++◌, length, length-append, arith, if◌then◌else◌, add64,
  div64, rem64, leb, ◌&&◌, Bool-cases, ltb, inl, inr,
}
use pa_bft.Base.Map.{insert, insert_new}
use pa_bft.Base.Outcome.{ok}
use pa_bft.Message.{PrepareMsg}
use pa_bft.Node.{Node, write}
use pa_bft.Node.Primary.{update_view_id, update_epoch_id}
use pa_bft.Node.Execute.{last_sequence_id, execute_one}
use pa_bft.Node.Log.{InOrder, lookup-InOrder, contains-InOrder, InOrder-append}

-- The log is numbered from 1 on, and `Committed` counts each executed sequence number once.
pub record IsOrdered (node : Node) : Type 0 where
  pub log : InOrder 1 node.committed_msgs
  pub short : length node.committed_msgs < 1000
  pub counted :
      (i : ℕ) → node.committed i ≡ (if leb 1 i && leb i (length node.committed_msgs) then 1 else 0)

pub last_sequence_id_lem :
    (node : Node) → IsOrdered node → last_sequence_id node ≡ ok (length node.committed_msgs)
unfolding last_sequence_id
last_sequence_id_lem node o =
    let m = node.committed_msgs in
    elim (Bool-cases (ltb 0 (length m))) [
      | inl some_log ↦
          let (p, e, s) = lookup-InOrder 1 (length m) m o.log (ground arith) (omega arith) in
          ground arith
      | inr no_log ↦ ground arith
    ]

-- What an execution that returns has written.
pub execute_one-ok :
    (node node' : Node) (last : ℕ) (p : PrepareMsg)
    → execute_one node last p ≡ ok node'
    → (add64 last 1 < 1000)
      × (node'.committed_msgs ≡ insert (add64 last 1) p node.committed_msgs)
      × (node'.committed
          ≡ write node.committed (add64 last 1) (add64 (node.committed (add64 last 1)) 1))
      × (node'.stable_check_point ≡ add64 last 1)
      × (node'.epoch_id ≡ div64 (add64 last 1) 10)
      × (node'.view.id ≡ rem64 (add64 last 1) 10)
unfolding execute_one update_view_id update_epoch_id
execute_one-ok node node' last p h = ground arith

-- An execution keeps the order and appends the proposal to the log.
pub execute_one-IsOrdered :
    (node node' : Node) (p : PrepareMsg)
    → IsOrdered node
    → p.sequence_id ≡ suc (length node.committed_msgs)
    → execute_one node (length node.committed_msgs) p ≡ ok node'
    → IsOrdered node'
      × (node'.committed_msgs ≡ node.committed_msgs ++ (suc (length node.committed_msgs), p) ∷ [])
execute_one-IsOrdered node node' p o s h =
    let m = node.committed_msgs in
    let k = suc (length m) in
    let w = execute_one-ok node node' (length m) p h in
    let next : add64 (length m) 1 ≡ k = omega (arith, o.short) in
    let fresh = contains-InOrder 1 k m o.log (omega arith) in
    let appended : node'.committed_msgs ≡ m ++ (k, p) ∷ [] =
      rw (w.1, next) (insert_new k p m fresh) in
    let size : length node'.committed_msgs ≡ k =
      rw appended (omega (arith, length-append m ((k, p) ∷ []))) in
    (
      record {
        log = rw appended (InOrder-append 1 m k p o.log (omega arith) s);
        short = omega (arith, size, w.0, next);
        counted = λ i. rw (w.2, next, size) (ground (arith, o.counted i, o.counted k, o.short));
      },
      appended,
    )
