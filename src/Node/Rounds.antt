-- ===== src/Node/Rounds.antt =====
-- A round of executeMsg (pbft/network/node.go): it ends, and executes all that is next in order.
use mathlib.Core.Path.{sym, subst₂, ◌∙◌, ap}
use mathlib.Core.List.{append-nil, append_assoc}
use pa_bft.Base.{
  int64_key, ℕ, zero, suc, ◌<◌, ◌≡◌, ◌≢◌, refl, Option, none, some, List, [], ◌∷◌, ◌++◌, length,
  arith, add64, Option-cases, inl, inr,
}
use pa_bft.Base.Map.{lookup, insert, delete, lookup-delete}
use pa_bft.Base.Outcome.{ok, out_of_fuel, ◌>>=◌, bind-returns, >>=-ends}
use pa_bft.Message.{PrepareMsg}
use pa_bft.Node.{Node}
use pa_bft.Node.Primary.{update_view_id}
use pa_bft.Node.Execute.{Pairs, execute_one, execute_loop, execute_msg}
use pa_bft.Node.Log.{IsKeyed, lookup-IsKeyed, insert-IsKeyed, delete-IsKeyed, length-delete-lt}
use pa_bft.Node.Order.{IsOrdered, last_sequence_id_lem, execute_one-IsOrdered}

-- The entries come from the waiting proposals.
abbrev pub AllFrom : Pairs → List (ℕ × PrepareMsg) → Type 0
AllFrom pairs [] = Unit {0}
AllFrom pairs ((k, p) ∷ added) = (lookup k pairs ≡ some p) × AllFrom pairs added

AllFrom-delete :
    (j : ℕ) (pairs : Pairs) (added : List (ℕ × PrepareMsg))
    → AllFrom (delete j pairs) added
    → AllFrom pairs added
AllFrom-delete j pairs [] a = tt
AllFrom-delete j pairs ((k, p) ∷ added) a =
    (ground (arith, lookup-delete j k pairs), AllFrom-delete j pairs added a.1)

-- What a round of the executor comes to: the log is still in order, it is the old log with proposals
-- that were waiting appended, and the proposal for the next sequence number is not there.
pub record Executed (node node' : Node) (pairs pairs' : Pairs) : Type 0 where
  pub ordered : IsOrdered node'
  pub keyed : IsKeyed pairs'
  pub added : List (ℕ × PrepareMsg)
  pub appended : node'.committed_msgs ≡ node.committed_msgs ++ added
  pub waiting : AllFrom pairs added
  pub stuck : lookup (suc (length node'.committed_msgs)) pairs' ≡ none

next_id :
    (node : Node)
    → IsOrdered node
    → add64 (length node.committed_msgs) 1 ≡ suc (length node.committed_msgs)
next_id node o = omega (arith, o.short)

-- The loop where the next proposal is not there, and where it is.
pub execute_loop-stuck :
    (fuel : ℕ) (node : Node) (pairs : Pairs)
    → IsOrdered node
    → lookup (suc (length node.committed_msgs)) pairs ≡ none
    → execute_loop (suc fuel) node pairs ≡ ok (node, pairs)
unfolding execute_loop
execute_loop-stuck fuel node pairs o e =
    let e' : lookup (add64 (length node.committed_msgs) 1) pairs ≡ none = rw (next_id node o) e in
    rw (last_sequence_id_lem node o) (rw (e', ◌>>=◌) refl)

pub execute_loop-next :
    (fuel : ℕ) (node : Node) (pairs : Pairs) (p : PrepareMsg)
    → IsOrdered node
    → lookup (suc (length node.committed_msgs)) pairs ≡ some p
    → execute_loop (suc fuel) node pairs ≡ (
        execute_one node (length node.committed_msgs) p >>= λ node'.
        execute_loop fuel node' (delete (suc (length node.committed_msgs)) pairs))
unfolding execute_loop
execute_loop-next fuel node pairs p o e =
    let e' : lookup (add64 (length node.committed_msgs) 1) pairs ≡ some p = rw (next_id node o) e in
    rw (last_sequence_id_lem node o) (
      rw (e', ◌>>=◌)
        (ap
          (λ k. execute_one node (length node.committed_msgs) p >>= λ node'.
            execute_loop fuel node' (delete k pairs))
          (next_id node o)))

execute_loop-Executed :
    (fuel : ℕ) (node node' : Node) (pairs pairs' : Pairs)
    → IsOrdered node
    → IsKeyed pairs
    → execute_loop fuel node pairs ≡ ok (node', pairs')
    → Executed node node' pairs pairs'
execute_loop-Executed zero node node' pairs pairs' o d h = unfold execute_loop in cc
execute_loop-Executed (suc fuel) node node' pairs pairs' o d h =
    let m = node.committed_msgs in
    let k = suc (length m) in
    elim (Option-cases (lookup k pairs)) [
      | inl e ↦
          let same = sym (execute_loop-stuck fuel node pairs o e) ∙ h in
          subst₂ (λ n ps. Executed node n pairs ps) (ground (arith, same)) (ground (arith, same))
            (record {
              ordered = o;
              keyed = d;
              added = [];
              appended = sym (append-nil m);
              waiting = tt;
              stuck = e;
            })
      | inr (p, e) ↦
          let (node1, rest, one) =
            bind-returns (execute_one node (length m) p) _
              (sym (execute_loop-next fuel node pairs p o e) ∙ h) in
          let (o1, grown) =
            execute_one-IsOrdered node node1 p o (lookup-IsKeyed k pairs p d e) one in
          let x =
            execute_loop-Executed fuel node1 node' (delete k pairs) pairs' o1
              (delete-IsKeyed k pairs d) rest in
          record {
            ordered = x.ordered;
            keyed = x.keyed;
            added = (k, p) ∷ x.added;
            appended =
                x.appended ∙ ap (λ l. l ++ x.added) grown ∙ append_assoc m ((k, p) ∷ []) x.added;
            waiting = (e, AllFrom-delete k pairs x.added x.waiting);
            stuck = x.stuck;
          }
    ]

-- From a log in order, a round of the executor that returns keeps it in order: numbered from 1 on
-- without a gap, each sequence number executed once. It rewrites no entry, appends proposals that were
-- waiting or have just come, and stops only where the proposal for the next sequence number is missing.
pub execute_msg-Executed :
    (node node' : Node) (pairs pairs' : Pairs) (p : PrepareMsg)
    → IsOrdered node
    → IsKeyed pairs
    → execute_msg node pairs (some p) ≡ ok (node', pairs')
    → Executed node node' (insert p.sequence_id p pairs) pairs'
unfolding execute_msg
execute_msg-Executed node node' pairs pairs' p o d h =
    execute_loop-Executed (suc (length (insert p.sequence_id p pairs))) node node'
      (insert p.sequence_id p pairs) pairs' o (insert-IsKeyed p pairs d) h

execute_one-ends : (node : Node) (last : ℕ) (p : PrepareMsg) → execute_one node last p ≢ out_of_fuel
unfolding execute_one update_view_id
execute_one-ends node last p h = ground arith

execute_loop-ends :
    (fuel : ℕ) (node : Node) (pairs : Pairs)
    → IsOrdered node
    → IsKeyed pairs
    → length pairs < fuel
    → execute_loop fuel node pairs ≢ out_of_fuel
execute_loop-ends zero node pairs o d l h = elim l [ ]
execute_loop-ends (suc fuel) node pairs o d l h =
    let k = suc (length node.committed_msgs) in
    elim (Option-cases (lookup k pairs)) [
      | inl e ↦ ground (arith, sym (execute_loop-stuck fuel node pairs o e) ∙ h)
      | inr (p, e) ↦
          >>=-ends (execute_one node (length node.committed_msgs) p) _
            (execute_one-ends node (length node.committed_msgs) p)
            (λ node1 one.
              execute_loop-ends fuel node1 (delete k pairs)
                (execute_one-IsOrdered node node1 p o (lookup-IsKeyed k pairs p d e) one).0
                (delete-IsKeyed k pairs d) (omega (arith, length-delete-lt k pairs p e)))
            (sym (execute_loop-next fuel node pairs p o e) ∙ h)
    ]

-- The inner loop of the executor ends: the fuel that `execute_msg` gives it never runs out.
pub execute_msg-ends :
    (node : Node) (pairs : Pairs) (received : Option PrepareMsg)
    → IsOrdered node
    → IsKeyed pairs
    → execute_msg node pairs received ≢ out_of_fuel
unfolding execute_msg
execute_msg-ends node pairs none o d h = cc
execute_msg-ends node pairs (some p) o d h =
    execute_loop-ends (suc (length (insert p.sequence_id p pairs))) node
      (insert p.sequence_id p pairs) o (insert-IsKeyed p pairs d) (omega arith) h
