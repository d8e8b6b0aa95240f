-- ===== src/Node/Agreement.antt =====
-- Two executors (executeMsg of pbft/network/node.go) that are handed the same decisions.
use mathlib.Core.Path.{sym, ◌∙◌, ap}
use mathlib.Core.List.{append-nil, append_assoc}
use pa_bft.Base.{
  ℕ, zero, suc, ◌+◌, ◌-◌, ◌≤◌, ◌≡◌, ◌⊎◌, List, [], ◌∷◌, ◌++◌, length, arith, Bool-cases, leb, inl,
  inr,
}
use pa_bft.Base.Outcome.{ok}
use pa_bft.Message.{PrepareMsg}
use pa_bft.Node.{Node}
use pa_bft.Node.Execute.{Pairs}
use pa_bft.Node.Order.{IsOrdered}
use pa_bft.Node.Chain.{execute_all, arrived, chain, AllDecided, execute_all-chain}

-- The second list is the first one with more behind it.
abbrev pub IsPrefix : List (ℕ × PrepareMsg) → List (ℕ × PrepareMsg) → Type 0
IsPrefix l l' = (rest : List (ℕ × PrepareMsg)) × (l' ≡ l ++ rest)

module _ (decided : ℕ → PrepareMsg) where
  chain-append :
      (n d : ℕ) → (rest : List (ℕ × PrepareMsg)) × (chain decided (d + n) ≡ chain decided n ++ rest)
  chain-append n zero =
      let z : 0 + n ≡ n = omega arith in
      ([], ap (chain decided) z ∙ sym (append-nil (chain decided n)))
  chain-append n (suc d) =
      let (rest, e) = chain-append n d in
      let next : List (ℕ × PrepareMsg) = (suc (d + n), decided (suc (d + n))) ∷ [] in
      let z : suc d + n ≡ suc (d + n) = omega arith in
      (
        rest ++ next,
        ap (chain decided) z ∙ ap (λ l. l ++ next) e ∙ append_assoc (chain decided n) rest next,
      )

  chain-IsPrefix : (n m : ℕ) → n ≤ m → IsPrefix (chain decided n) (chain decided m)
  chain-IsPrefix n m le =
      let (rest, e) = chain-append n (m - n) in
      let z : m ≡ m - n + n = omega arith in (rest, ap (chain decided) z ∙ e)

-- Two nodes with empty logs, whose executors are handed proposals in any two orders, each proposal the
-- one decided for its sequence number: when the rounds return, one log is a prefix of the other; and
-- where proposals for the same sequence numbers have come to both, the two logs are the same.
pub execute_all-agree :
    (decided : ℕ → PrepareMsg) (ps qs : List PrepareMsg) (a a' b b' : Node) (pa pb : Pairs)
    → IsOrdered a × (a.committed_msgs ≡ [])
    → IsOrdered b × (b.committed_msgs ≡ [])
    → AllDecided decided ps × AllDecided decided qs
    → execute_all a [] ps ≡ ok (a', pa)
    → execute_all b [] qs ≡ ok (b', pb)
    → (IsPrefix a'.committed_msgs b'.committed_msgs ⊎ IsPrefix b'.committed_msgs a'.committed_msgs)
      × (((k : ℕ) → arrived k ps ≡ arrived k qs) → a'.committed_msgs ≡ b'.committed_msgs)
execute_all-agree decided ps qs a a' b b' pa pb sa sb d ha hb =
    let n = length a'.committed_msgs in
    let m = length b'.committed_msgs in
    let (la, has_a, end_a) = execute_all-chain decided ps a a' pa sa.0 sa.1 d.0 ha in
    let (lb, has_b, end_b) = execute_all-chain decided qs b b' pb sb.0 sb.1 d.1 hb in
    (
      elim (Bool-cases (leb n m)) [
        | inl le ↦ inl (rw la (rw lb (chain-IsPrefix decided n m (ground arith))))
        | inr gt ↦ inr (rw la (rw lb (chain-IsPrefix decided m n (ground arith))))
      ],
      λ same.
          let e : n ≡ m =
            ground (arith, same (suc n), same (suc m), has_a (suc m), has_b (suc n)) in
          la ∙ ap (chain decided) e ∙ sym lb,
    )
