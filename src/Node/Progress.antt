-- ===== src/Node/Progress.antt =====
-- When a round of executeMsg (pbft/network/node.go) returns.
use mathlib.Core.Path.{◌∙◌}
use pa_bft.Base.{
  int64_key, ℕ, suc, zero, ◌+◌, ◌≤◌, ◌<◌, ◌≡◌, ◌≢◌, refl, some, Bool, true, List, [], ◌∷◌, length,
  arith, Option-cases, inl, inr, ◌%◌, ◌++◌, get_elem?-lt, length-append,
}
use pa_bft.Base.Map.{lookup, insert, delete, lookup-insert, lookup-delete, length-insert}
use pa_bft.Base.Outcome.{ok, returns, ◌>>=◌, returns-ok, bind-ok}
use pa_bft.Message.{PrepareMsg}
use pa_bft.State.{State}
use pa_bft.Node.{Node}
use pa_bft.Node.Primary.{update_view_id, update_epoch_id, get_primary_info_by_id}
use pa_bft.Node.Handling.{HasRoom}
use pa_bft.Node.Execute.{Pairs, execute_one, execute_loop, execute_msg}
use pa_bft.Node.Starting.{is_some}
use pa_bft.Node.Chain.{execute_all, arrived}
use pa_bft.Node.Log.{IsKeyed, insert-IsKeyed, delete-IsKeyed, lookup-IsKeyed, length-delete-lt}
use pa_bft.Node.Order.{IsOrdered, execute_one-IsOrdered}
use pa_bft.Node.Rounds.{execute_loop-stuck, execute_loop-next}

-- A sequence number has a thread whose channels can take what an execution sends.
pub record IsReady (node : Node) (k : ℕ) : Type 0 where
  pub thread : State
  pub there : lookup k node.states ≡ some thread
  pub stop : HasRoom thread.timer_stop_ch
  pub exit : HasRoom thread.msg_exit
  pub exit1 : HasRoom thread.msg_exit1

execute_one-returns :
    (node : Node) (last : ℕ) (p : PrepareMsg)
    → p.sequence_id ≡ suc last
    → suc last < 1000
    → 10 ≤ length node.node_table
    → IsReady node (suc last)
    → returns (execute_one node last p) ≡ true
unfolding execute_one update_view_id get_primary_info_by_id update_epoch_id
execute_one-returns node last p e small ten ready =
    let s = ready.thread in
    let stopped : State = record s {
      timer_stop_ch = record s.timer_stop_ch { queue = s.timer_stop_ch.queue ++ "ViewChange" ∷ [] };
    } in
    let (primary, at) = get_elem?-lt node.node_table (suc last % 10) (omega arith) in
    ground (
      arith,
      e,
      at,
      ready.there,
      ready.stop,
      ready.exit,
      ready.exit1,
      lookup-insert p.sequence_id (suc last) stopped node.states,
    )

execute_one-keeps :
    (node node' : Node) (last : ℕ) (p : PrepareMsg)
    → p.sequence_id ≡ suc last
    → suc last < 1000
    → execute_one node last p ≡ ok node'
    → (node'.node_table ≡ node.node_table)
      × ((j : ℕ) → j ≢ suc last → lookup j node'.states ≡ lookup j node.states)
unfolding execute_one update_view_id get_primary_info_by_id update_epoch_id
execute_one-keeps node node' last p e small h = (ground arith, λ j n. grind (arith, lookup-insert))

-- Each sequence number that is wanted and not executed can be executed.
abbrev pub AllReady : Node → (ℕ → Bool) → Type 0
AllReady node wanted = (k : ℕ) → wanted k ≡ true → length node.committed_msgs < k → IsReady node k

-- Only wanted sequence numbers wait.
abbrev pub AllWanted : Pairs → (ℕ → Bool) → Type 0
AllWanted pairs wanted = (k : ℕ) → is_some (lookup k pairs) ≡ true → wanted k ≡ true

IsReady-keeps :
    (node node' : Node) (k : ℕ)
    → lookup k node'.states ≡ lookup k node.states
    → IsReady node k
    → IsReady node' k
IsReady-keeps node node' k same r = record {
  thread = r.thread;
  there = same ∙ r.there;
  stop = r.stop;
  exit = r.exit;
  exit1 = r.exit1;
}

-- What holds where a round starts, and again where it has returned.
pub record CanRun (node : Node) (pairs : Pairs) (wanted : ℕ → Bool) (more : ℕ) : Type 0 where
  pub ordered : IsOrdered node
  pub keyed : IsKeyed pairs
  pub table : 10 ≤ length node.node_table
  pub short : length node.committed_msgs + length pairs + more < 1000
  pub ready : AllReady node wanted
  pub known : AllWanted pairs wanted

execute_loop-returns :
    (fuel : ℕ) (node : Node) (pairs : Pairs) (wanted : ℕ → Bool) (more : ℕ)
    → CanRun node pairs wanted more
    → length pairs < fuel
    → (node' : Node) × (pairs' : Pairs) × (execute_loop fuel node pairs ≡ ok (node', pairs'))
      × CanRun node' pairs' wanted more
execute_loop-returns zero node pairs wanted more c l = elim l [ ]
execute_loop-returns (suc fuel) node pairs wanted more c l =
    let m = node.committed_msgs in
    let k = suc (length m) in
    elim (Option-cases (lookup k pairs)) [
      | inl e ↦ (node, pairs, execute_loop-stuck fuel node pairs c.ordered e, c)
      | inr (p, e) ↦
          let shorter = length-delete-lt k pairs p e in
          let id = lookup-IsKeyed k pairs p c.keyed e in
          let now = c.ready k (c.known k (rw e refl)) (omega arith) in
          let (node1, one) = returns-ok (execute_one node (length m) p) (
            execute_one-returns node (length m) p id (omega (arith, c.short, shorter)) c.table
              now) in
          let (table, others) =
            execute_one-keeps node node1 (length m) p id (omega (arith, c.short, shorter)) one in
          let (o1, grown) = execute_one-IsOrdered node node1 p c.ordered id one in
          let size : length node1.committed_msgs ≡ k =
            rw grown (omega (arith, length-append m ((k, p) ∷ []))) in
          let c1 : CanRun node1 (delete k pairs) wanted more = record {
            ordered = o1;
            keyed = delete-IsKeyed k pairs c.keyed;
            table = rw table c.table;
            short = omega (arith, size, shorter, c.short);
            ready = λ j w past.
                IsReady-keeps node node1 j (others j (omega (arith, size, past)))
                  (c.ready j w (omega (arith, size, past)));
            known = λ j f. c.known j (ground (arith, lookup-delete k j pairs, f));
          } in
          let (node', pairs', rest, c') =
            execute_loop-returns fuel node1 (delete k pairs) wanted more c1
              (omega (arith, shorter)) in
          (
            node',
            pairs',
            execute_loop-next fuel node pairs p c.ordered e ∙ bind-ok _ _ _ one rest,
            c',
          )
    ]

execute_msg-runs :
    (node : Node) (pairs : Pairs) (p : PrepareMsg) (wanted : ℕ → Bool) (more : ℕ)
    → CanRun node pairs wanted (suc more)
    → wanted p.sequence_id ≡ true
    → (node' : Node) × (pairs' : Pairs) × (execute_msg node pairs (some p) ≡ ok (node', pairs'))
      × CanRun node' pairs' wanted more
unfolding execute_msg
execute_msg-runs node pairs p wanted more c w =
    let waits = insert p.sequence_id p pairs in
    let c1 : CanRun node waits wanted more = record {
      ordered = c.ordered;
      keyed = insert-IsKeyed p pairs c.keyed;
      table = c.table;
      short = ground (arith, c.short, length-insert p.sequence_id p pairs);
      ready = c.ready;
      known = λ j f. ground (arith, lookup-insert p.sequence_id j p pairs, c.known j, f, w);
    } in
    execute_loop-returns (suc (length waits)) node waits wanted more c1 (omega arith)

-- A list of proposals is executed without a panic and without waiting: for a table of ten nodes or
-- more, a log in order that stays below 1000 entries with all that waits and comes, and a thread with
-- room on its channels for each sequence number that waits or comes and is not executed yet.
pub execute_all-returns :
    (ps : List PrepareMsg) (node : Node) (pairs : Pairs) (wanted : ℕ → Bool)
    → CanRun node pairs wanted (length ps)
    → ((k : ℕ) → arrived k ps ≡ true → wanted k ≡ true)
    → returns (execute_all node pairs ps) ≡ true
unfolding execute_all
execute_all-returns [] node pairs wanted c w = refl
execute_all-returns (p ∷ ps) node pairs wanted c w =
    let (node1, pairs1, one, c1) =
      execute_msg-runs node pairs p wanted (length ps) c (w p.sequence_id (ground arith)) in
    rw (one, ◌>>=◌) (execute_all-returns ps node1 pairs1 wanted c1 (λ k a. w k (ground (arith, a))))
