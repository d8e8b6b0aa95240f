-- ===== src/System/Marks.antt =====
-- The executor (executeMsg of pbft/network/node.go) does not touch the counters of proposals.
use pa_bft.Base.{int64_key, ℕ, zero, suc, ◌≡◌, ◌∙◌, refl, some, length, add64, arith}
use pa_bft.Base.Map.{lookup, insert, delete}
use pa_bft.Base.Outcome.{ok}
use pa_bft.Base.Reach.{
  Holds, Holds-ok, Holds-bind, Holds-any, Holds-map, Holds-elim, Holds-fuel, Holds-returned,
}
use pa_bft.Message.{PrepareMsg}
use pa_bft.Node.{Node}
use pa_bft.Node.Primary.{update_view_id, update_epoch_id}
use pa_bft.Node.Execute.{Pairs, execute_one, execute_loop, execute_msg, last_sequence_id}

execute_one-prepared :
    (node node' : Node) (last : ℕ) (p : PrepareMsg)
    → execute_one node last p ≡ ok node'
    → node'.prepared ≡ node.prepared
unfolding execute_one update_view_id update_epoch_id
execute_one-prepared node node' last p h = ground arith

execute_loop-prepared :
    (fuel : ℕ) (node : Node) (pairs : Pairs)
    → Holds (execute_loop fuel node pairs) (λ r. r.0.prepared ≡ node.prepared)
unfolding execute_loop
execute_loop-prepared zero node pairs = Holds-fuel
execute_loop-prepared (suc fuel) node pairs =
    Holds-bind (Holds-any (last_sequence_id node)) λ last e u.
      Holds-elim (lookup (add64 last 1) pairs) (λ none_there. Holds-ok refl)
        (λ p there. Holds-bind (Holds-any (execute_one node last p)) λ node1 e1 u1.
          let more = execute_loop-prepared fuel node1 (delete (add64 last 1) pairs) in
          Holds-map more (λ r same. same ∙ execute_one-prepared node node1 last p e1))

pub execute_msg-prepared :
    (node node' : Node) (pairs pairs' : Pairs) (p : PrepareMsg)
    → execute_msg node pairs (some p) ≡ ok (node', pairs')
    → node'.prepared ≡ node.prepared
unfolding execute_msg
execute_msg-prepared node node' pairs pairs' p h =
    let waits = insert p.sequence_id p pairs in
    Holds-returned (execute_loop-prepared (suc (length waits)) node waits) h
