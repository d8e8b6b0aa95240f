-- ===== src/Node/Chain.antt =====
-- What the executor (executeMsg of pbft/network/node.go) comes to over a whole list of proposals: the
-- log is the chain of decided proposals as far as they have come, in whatever order they came.
use mathlib.Core.Path.{sym, ◌∙◌, ap}
use pa_bft.Base.{
  int64_key, ℕ, zero, suc, ◌≤◌, ◌<◌, ◌≡◌, ◌||◌, refl, Bool, true, false, none, some, List, [], ◌∷◌,
  ◌++◌, length, length-append, arith, leb, ◌==◌, Option-cases, inl, inr,
}
use pa_bft.Base.Map.{lookup, insert, delete, lookup-insert, lookup-delete}
use pa_bft.Base.Outcome.{Outcome, ok, ◌>>=◌, bind-returns}
use pa_bft.Message.{PrepareMsg}
use pa_bft.Node.{Node}
use pa_bft.Node.Starting.{is_some}
use pa_bft.Node.Execute.{Pairs, execute_one, execute_loop, execute_msg}
use pa_bft.Node.Log.{IsKeyed, insert-IsKeyed, delete-IsKeyed, lookup-IsKeyed}
use pa_bft.Node.Order.{IsOrdered, execute_one-IsOrdered}
use pa_bft.Node.Rounds.{execute_loop-stuck, execute_loop-next}

-- Rounds of `executeMsg`, one for each proposal.
unfoldable pub execute_all : Node → Pairs → List PrepareMsg → Outcome (Node × Pairs)
execute_all node pairs [] = ok (node, pairs)
execute_all node pairs (p ∷ ps) = do
  (node', pairs') ← execute_msg node pairs (some p)
  execute_all node' pairs' ps

-- A proposal for the sequence number has come.
abbrev pub arrived : ℕ → List PrepareMsg → Bool
arrived k [] = false
arrived k (p ∷ ps) = (p.sequence_id == k) || arrived k ps

module _ (decided : ℕ → PrepareMsg) where
  -- The decided proposals of the sequence numbers 1 to n.
  abbrev pub chain : ℕ → List (ℕ × PrepareMsg)
  chain zero = []
  chain (suc n) = chain n ++ (suc n, decided (suc n)) ∷ []

  -- Each proposal is the one decided for its sequence number.
  abbrev pub AllDecided : List PrepareMsg → Type 0
  AllDecided [] = Unit {0}
  AllDecided (p ∷ ps) = (p ≡ decided p.sequence_id) × AllDecided ps

  -- The same for what waits.
  abbrev IsDecided : Pairs → Type 0
  IsDecided pairs = (k : ℕ) (p : PrepareMsg) → lookup k pairs ≡ some p → p ≡ decided k

  length-chain : (n : ℕ) → length (chain n) ≡ n
  length-chain zero = refl
  length-chain (suc n) =
      omega (arith, length-append (chain n) ((suc n, decided (suc n)) ∷ []), length-chain n)

-- A sequence number is executed, or its proposal waits.
abbrev has : Node → Pairs → ℕ → Bool
has node pairs k = leb k (length node.committed_msgs) || is_some (lookup k pairs)

module _ (decided : ℕ → PrepareMsg) where
  -- Between two rounds: the log is the chain, what waits is decided, and the next one does not wait.
  record IsChained (node : Node) (pairs : Pairs) : Type 0 where
    ordered : IsOrdered node
    keyed : IsKeyed pairs
    log : node.committed_msgs ≡ chain decided (length node.committed_msgs)
    waiting : IsDecided decided pairs

  delete-IsDecided :
      (k : ℕ) (pairs : Pairs) → IsDecided decided pairs → IsDecided decided (delete k pairs)
  delete-IsDecided k pairs d j p h = ground (arith, lookup-delete k j pairs, d j p)

  insert-IsDecided :
      (p : PrepareMsg) (pairs : Pairs)
      → p ≡ decided p.sequence_id
      → IsDecided decided pairs
      → IsDecided decided (insert p.sequence_id p pairs)
  insert-IsDecided p pairs e d j q h = ground (arith, lookup-insert p.sequence_id j p pairs, d j q)

  chain_next :
      (m m1 : List (ℕ × PrepareMsg)) (p : PrepareMsg)
      → m ≡ chain decided (length m)
      → p ≡ decided (suc (length m))
      → m1 ≡ m ++ (suc (length m), p) ∷ []
      → m1 ≡ chain decided (length m1)
  chain_next m m1 p l e g =
      let size : length m1 ≡ suc (length m) =
        rw g (omega (arith, length-append m ((suc (length m), p) ∷ []))) in
      g ∙ cc (l, e) ∙ ap (chain decided) (sym size)

  execute_loop-IsChained :
      (fuel : ℕ) (node node' : Node) (pairs pairs' : Pairs)
      → IsChained node pairs
      → execute_loop fuel node pairs ≡ ok (node', pairs')
      → IsChained node' pairs'
        × (lookup (suc (length node'.committed_msgs)) pairs' ≡ none)
        × ((k : ℕ) → 0 < k → has node' pairs' k ≡ has node pairs k)
  execute_loop-IsChained zero node node' pairs pairs' c h = unfold execute_loop in cc
  execute_loop-IsChained (suc fuel) node node' pairs pairs' c h =
      let m = node.committed_msgs in
      let n = suc (length m) in
      elim (Option-cases (lookup n pairs)) [
        | inl e ↦
            let same = sym (execute_loop-stuck fuel node pairs c.ordered e) ∙ h in
            let sn : node ≡ node' = ground (arith, same) in
            let sp : pairs ≡ pairs' = ground (arith, same) in
            rw (← sn) (rw (← sp) (c, e, λ k z. refl))
        | inr (p, e) ↦
            let (node1, rest, one) =
              bind-returns (execute_one node (length m) p) _
                (sym (execute_loop-next fuel node pairs p c.ordered e) ∙ h) in
            let id = lookup-IsKeyed n pairs p c.keyed e in
            let (o1, grown) = execute_one-IsOrdered node node1 p c.ordered id one in
            let size : length node1.committed_msgs ≡ n =
              rw grown (omega (arith, length-append m ((n, p) ∷ []))) in
            let c1 : IsChained node1 (delete n pairs) = record {
              ordered = o1;
              keyed = delete-IsKeyed n pairs c.keyed;
              log = chain_next m node1.committed_msgs p c.log (c.waiting n p e) grown;
              waiting = delete-IsDecided n pairs c.waiting;
            } in
            let (c', stuck, known) =
              execute_loop-IsChained fuel node1 node' (delete n pairs) pairs' c1 rest in
            (c', stuck, λ k z. known k z ∙ ground (arith, size, e, lookup-delete n k pairs))
      ]

  execute_msg-IsChained :
      (node node' : Node) (pairs pairs' : Pairs) (p : PrepareMsg)
      → IsChained node pairs
      → p ≡ decided p.sequence_id
      → execute_msg node pairs (some p) ≡ ok (node', pairs')
      → IsChained node' pairs'
        × (lookup (suc (length node'.committed_msgs)) pairs' ≡ none)
        × ((k : ℕ) → 0 < k → has node' pairs' k ≡ ((p.sequence_id == k) || has node pairs k))
  unfolding execute_msg
  execute_msg-IsChained node node' pairs pairs' p c e h =
      let waits = insert p.sequence_id p pairs in
      let c1 : IsChained node waits = record {
        ordered = c.ordered;
        keyed = insert-IsKeyed p pairs c.keyed;
        log = c.log;
        waiting = insert-IsDecided p pairs e c.waiting;
      } in
      let (c', stuck, known) =
        execute_loop-IsChained (suc (length waits)) node node' waits pairs' c1 h in
      (c', stuck, λ k z. known k z ∙ ground (arith, lookup-insert p.sequence_id k p pairs))

  execute_all-IsChained :
      (ps : List PrepareMsg) (node node' : Node) (pairs pairs' : Pairs)
      → IsChained node pairs
      → lookup (suc (length node.committed_msgs)) pairs ≡ none
      → AllDecided decided ps
      → execute_all node pairs ps ≡ ok (node', pairs')
      → IsChained node' pairs'
        × (lookup (suc (length node'.committed_msgs)) pairs' ≡ none)
        × ((k : ℕ) → 0 < k → has node' pairs' k ≡ (arrived k ps || has node pairs k))
  unfolding execute_all
  execute_all-IsChained [] node node' pairs pairs' c stuck d h =
      let sn : node ≡ node' = ground (arith, h) in
      let sp : pairs ≡ pairs' = ground (arith, h) in rw (← sn) (rw (← sp) (c, stuck, λ k z. refl))
  execute_all-IsChained (p ∷ ps) node node' pairs pairs' c stuck d h =
      let ((node1, pairs1), rest, one) = bind-returns (execute_msg node pairs (some p)) _ h in
      let (c1, stuck1, known1) = execute_msg-IsChained node node1 pairs pairs1 p c d.0 one in
      let (c2, stuck2, known2) =
        execute_all-IsChained ps node1 node' pairs1 pairs' c1 stuck1 d.1 rest in
      (c2, stuck2, λ k z. known2 k z ∙ ground (arith, known1 k z))

-- The executor as the service that it is: from an empty log, whatever the order in which the proposals
-- come and however often, if each is the one decided for its sequence number and the rounds return, the
-- log is the chain of the decided proposals 1 to n, where all of these have come and n + 1 has not.
pub execute_all-chain :
    (decided : ℕ → PrepareMsg) (ps : List PrepareMsg) (node node' : Node) (pairs' : Pairs)
    → IsOrdered node
    → node.committed_msgs ≡ []
    → AllDecided decided ps
    → execute_all node [] ps ≡ ok (node', pairs')
    → let n = length node'.committed_msgs in
      (node'.committed_msgs ≡ chain decided n)
      × ((k : ℕ) → 1 ≤ k → k ≤ n → arrived k ps ≡ true)
      × (arrived (suc n) ps ≡ false)
unfolding lookup
execute_all-chain decided ps node node' pairs' o new d h =
    let start : IsChained decided node [] = record {
      ordered = o;
      keyed = tt;
      log = rw new refl;
      waiting = λ k p e. cc;
    } in
    let (c, stuck, known) = execute_all-IsChained decided ps node node' [] pairs' start refl d h in
    let n = length node'.committed_msgs in
    (
      c.log,
      λ k z le. ground (arith, known k z, new),
      ground (arith, known (suc n) (omega arith), stuck, new),
    )
