-- ===== src/System/Sweeping.antt =====
-- The loop of GetViewChange and GetNewView (pbft/network/view.go) as a search for the threads that it
-- drops.
use pa_bft.Base.{
  ap, int64_key, ℕ, zero, suc, ◌+◌, ◌-◌, ◌^◌, ◌==◌, ◌≤◌, ◌<◌, ◌≡◌, inl, inr, Bool-cases,
  Option-cases, true, some, Within, add64, arith,
}
use pa_bft.Base.Map.{lookup}
use pa_bft.State.{State}
use pa_bft.Node.{Node}
use pa_bft.Node.Filling.{le64, gap}
use pa_bft.System.Lingering.{told, threads_from, threads_dropped}

threads_from-finds :
    (fuel : ℕ) (node : Node) (i top k : ℕ) (s : State)
    → i ≤ k
    → k ≤ top
    → top < 2 ^ 63 - 1
    → top < i + fuel
    → lookup k node.states ≡ some s
    → Within (k, told s) (threads_from fuel node i top)
unfolding threads_from
threads_from-finds zero node i top k s il kt ht l e = absurd (omega arith)
threads_from-finds (suc fuel) node i top k s il kt ht l e =
    let more : le64 i top ≡ true = ground arith in
    let next : add64 i 1 ≡ suc i = ground arith in
    elim (Bool-cases (i == k)) [
      | inl here ↦
          let same : k ≡ i = ground arith in
          let there : lookup i node.states ≡ some s = rw (← same) e in
          rw (threads_from, more, there) (inl (ap (λ j. (j, told s)) same))
      | inr other ↦
          let later : Within (k, told s) (threads_from fuel node (add64 i 1) top) =
            rw next
              (threads_from-finds fuel node (suc i) top k s (ground arith) kt ht (omega arith) e) in
          elim (Option-cases (lookup i node.states)) [
            | inl none_here ↦ rw (threads_from, more, none_here) later
            | inr (t, one_here) ↦ rw (threads_from, more, one_here) (inr later)
          ]
    ]

-- The loop has fuel enough: it finds every thread from `seq` to `TotalConsensus`.
threads_dropped-finds :
    (node : Node) (seq k : ℕ) (s : State)
    → seq ≤ k
    → k ≤ node.total_consensus
    → node.total_consensus < 2 ^ 63 - 1
    → lookup k node.states ≡ some s
    → Within (k, told s) (threads_dropped node seq)
unfolding threads_dropped
threads_dropped-finds node seq k s sk kt ht e =
    let top = node.total_consensus in
    threads_from-finds (suc (suc (gap seq top))) node seq top k s sk kt ht (ground arith) e
