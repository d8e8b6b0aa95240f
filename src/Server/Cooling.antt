-- ===== src/Server/Cooling.antt =====
-- logErrorMsg (pbft/network/node.go).
use pa_bft.Base.{
  ℕ, suc, ◌+◌, ◌-◌, ◌/◌, ◌%◌, ◌≤◌, ◌≡◌, ◌==◌, refl, Bool-cases, inl, inr, List, [], ◌∷◌, length,
  arith,
}
use pa_bft.State.{Error}
use pa_bft.Server.Sending.{LogEvent, cool_down, printed, log_errors}

-- The pauses among the lines.
abbrev pub pauses : List LogEvent → ℕ
pauses [] = 0
pauses (cool_down ∷ events) = suc (pauses events)
pauses (printed e ∷ events) = pauses events

abbrev pub lines : List LogEvent → List Error
lines [] = []
lines (cool_down ∷ events) = lines events
lines (printed e ∷ events) = e ∷ lines events

-- `logErrorMsg` prints every error, in order, and pauses once for each thirty errors since it started:
-- with a counter from 1 to 30, the pauses and the counter after a slice are the quotient and the rest of
-- the errors so far by 30.
pub log_errors-pauses :
    (errs : List Error) (left : ℕ)
    → 1 ≤ left
    → left ≤ 30
    → let r = log_errors left errs in
      let so_far = 30 - left + length errs in
      (lines r.1 ≡ errs) × (pauses r.1 ≡ so_far / 30) × (r.0 ≡ 30 - so_far % 30)
unfolding log_errors
log_errors-pauses [] left l u = (refl, omega arith, omega arith)
log_errors-pauses (e ∷ errs) left l u = elim (Bool-cases (left - 1 == 0)) [
  | inl z ↦
      let (a, b, c) = log_errors-pauses errs 30 (omega arith) (omega arith) in
      (ground (arith, z, a), ground (arith, z, b), ground (arith, z, c))
  | inr z ↦
      let (a, b, c) = log_errors-pauses errs (left - 1) (ground (arith, z)) (omega arith) in
      (ground (arith, z, a), ground (arith, z, b), ground (arith, z, c))
]
