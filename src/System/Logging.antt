-- ===== src/System/Logging.antt =====
-- The executor (executeMsg of pbft/network/node.go) keeps what the channels, the threads and the log
-- of the node hold.
use pa_bft.Base.{
  int64_key, ℕ, zero, suc, ◌==◌, Option, none, some, false, true, Bool, add64, length, rem64,
  if◌then◌else◌, ◌++◌, [], ◌∷◌,
}
use pa_bft.Base.Map.{lookup, insert, delete}
use pa_bft.Base.Values.{AllValues-insert, AllValues-delete}
use pa_bft.Base.Outcome.{ok, panic}
use pa_bft.Base.Reach.{
  Holds, Holds-ok, Holds-bind, Holds-any, Holds-deref, Holds-if, Holds-elim, Holds-send,
  Holds-panic, Holds-fuel,
}
use pa_bft.Message.{PrepareMsg}
use pa_bft.State.{State}
use pa_bft.Node.{Node, in_array, write}
use pa_bft.Node.Primary.{update_epoch_id}
use pa_bft.Node.Execute.{Pairs, execute_one, execute_loop, execute_msg, last_sequence_id}
use pa_bft.System.Mail.{IfSome, AllProposals, IsHeard}
use pa_bft.System.Hearing.{update_view_id-IsHeard, IsHeard-thread}

module _ (P : PrepareMsg → Type 0) where
  pub IsHeard-log :
      (node : Node) (seq : ℕ) (p : PrepareMsg)
      → IsHeard P node
      → P p
      → IsHeard P (record node { committed_msgs = insert seq p node.committed_msgs })
  IsHeard-log node seq p h hp = record {
    entrance = h.entrance;
    delivery = h.delivery;
    execution = h.execution;
    threads = h.threads;
    views = h.views;
    log = AllValues-insert (λ k. P) seq p node.committed_msgs h.log hp;
  }

  reset-IsHeard :
      (tenth : Bool) (node : Node)
      → IsHeard P node
      → IsHeard P (if tenth then record node { next_candidate_idx = 10 } else node)
  reset-IsHeard true node h = h
  reset-IsHeard false node h = h

  counted-IsHeard :
      (node : Node) (seq : ℕ)
      → IsHeard P node
      → Holds
          (if in_array seq
            then ok (record node {
              committed = write node.committed seq (add64 (node.committed seq) 1);
              stable_check_point = seq;
            })
            else panic)
          (IsHeard P)
  counted-IsHeard node seq h = Holds-if (in_array seq) (λ z. Holds-ok h) (λ z. Holds-panic)

  execute_one-IsHeard :
      (node : Node) (last : ℕ) (p : PrepareMsg)
      → IsHeard P node
      → P p
      → Holds (execute_one node last p) (IsHeard P)
  unfolding execute_one update_epoch_id
  execute_one-IsHeard node last p h hp =
      Holds-bind (Holds-deref (lookup p.sequence_id node.states)) λ timed there e.
        Holds-send timed.timer_stop_ch _ _ λ room.
          let stopped : State = record timed {
            timer_stop_ch = record timed.timer_stop_ch {
              queue = timed.timer_stop_ch.queue ++ "ViewChange" ∷ [];
            };
          } in
          let seq = add64 last 1 in
          let node0 : Node = record node { states = insert p.sequence_id stopped node.states } in
          let h0 =
            IsHeard-thread P node p.sequence_id stopped h (h.threads p.sequence_id timed e) in
          let node1 : Node = record node0 { committed_msgs = insert seq p node.committed_msgs } in
          let h1 = IsHeard-log node0 seq p h0 hp in
          Holds-bind (counted-IsHeard node1 seq h1) λ counted e1 h2.
            let k = counted.stable_check_point in
            Holds-bind (Holds-deref (lookup k counted.states)) λ state e2 e3.
              Holds-send state.msg_exit _ _ λ room1. Holds-send state.msg_exit1 _ _ λ room2.
                let exited : State = record state {
                  msg_exit = record state.msg_exit { queue = state.msg_exit.queue ++ 0 ∷ [] };
                  msg_exit1 = record state.msg_exit1 { queue = state.msg_exit1.queue ++ 0 ∷ [] };
                } in
                let h3 = IsHeard-thread P counted k exited h2 (h2.threads k state e3) in
                let node2 : Node = record counted {
                  states = insert k exited counted.states;
                  stable_check_point = seq;
                } in
                Holds-bind (update_view_id-IsHeard P node2 seq h3) λ viewed e4 h4.
                  let node3 = update_epoch_id viewed viewed.stable_check_point in
                  Holds-ok (reset-IsHeard (rem64 node3.stable_check_point 10 == 0) node3 h4)

  -- What waits and what is logged.
  abbrev pub Fine : Node × Pairs → Type 0
  Fine r = IsHeard P r.0 × AllProposals P r.1

  execute_loop-Fine :
      (fuel : ℕ) (node : Node) (pairs : Pairs)
      → IsHeard P node
      → AllProposals P pairs
      → Holds (execute_loop fuel node pairs) Fine
  unfolding execute_loop
  execute_loop-Fine zero node pairs h w = Holds-fuel
  execute_loop-Fine (suc fuel) node pairs h w =
      Holds-bind (Holds-any (last_sequence_id node)) λ last e u.
        let seq = add64 last 1 in
        Holds-elim (lookup seq pairs) (λ none_there. Holds-ok (h, w))
          (λ p there. Holds-bind (execute_one-IsHeard node last p h (w seq p there)) λ node1 e1 h1.
            execute_loop-Fine fuel node1 (delete seq pairs) h1
              (AllValues-delete (λ k. P) seq pairs w))

  pub execute_msg-Fine :
      (node : Node) (pairs : Pairs) (received : Option PrepareMsg)
      → IsHeard P node
      → AllProposals P pairs
      → IfSome P received
      → Holds (execute_msg node pairs received) Fine
  unfolding execute_msg
  execute_msg-Fine node pairs none h w hp = Holds-panic
  execute_msg-Fine node pairs (some p) h w hp =
      let waits = insert p.sequence_id p pairs in
      execute_loop-Fine (suc (length waits)) node waits h
        (AllValues-insert (λ k. P) p.sequence_id p pairs w hp)
