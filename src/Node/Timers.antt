-- ===== src/Node/Timers.antt =====
-- The timer goroutine of startTransitionWithDeadline (pbft/network/node.go), and NumOfPhase of
-- pbft/consensus/util.go: a phase is started and stopped by name, through two channels.
use text.Mathlib.Text.{◌==◌ as text_beq}
use pa_bft.Base.{
  ℕ, ◌-◌, ◌^◌, String, Option, none, some, Bool, true, false, List, [], ◌∷◌, ◌++◌, ltb, ◌==◌,
  if◌then◌else◌,
}
use pa_bft.Base.Chan.{Chan, make_chan, send}
use pa_bft.Base.Outcome.{Outcome, ok, panic, blocked, sent, ◌>>=◌}

-- An unknown name has the number -1, as an int64.
abbrev pub num_of_phase : String → ℕ
num_of_phase s =
    if text_beq s "Prepare"
    then 0
    else if text_beq s "Vote"
    then 1
    else if text_beq s "Collate"
    then 2
    else if text_beq s "ViewChange"
    then 3
    else if text_beq s "Total"
    then 4
    else 2 ^ 64 - 1

-- The two arrays of four, and the goroutines that wait for the end of a timer, by the name of their
-- phase. `timer_arr` tells which timers have been made.
pub record Timers : Type 0 where
  pub timer_arr : ℕ → Bool
  pub cancel_ch : ℕ → Option (Chan ℕ)
  pub waiting : List String

-- `var timerArr [4]*time.Timer` and `var cancelCh [4]chan struct {}`
abbrev pub no_timers : Timers
no_timers = record { timer_arr = λ i. false; cancel_ch = λ i. none; waiting = [] }

-- The index of a phase; the arrays have four cells.
abbrev pub phase_index : String → Outcome ℕ
phase_index name = if ltb (num_of_phase name) 4 then ok (num_of_phase name) else panic

abbrev pub put : {A : Type 0} → (ℕ → A) → ℕ → A → ℕ → A
put a i v j = if i == j then v else a j

-- `case phaseName := <- TimerStartCh`
unfoldable pub take_start : Timers → String → Outcome Timers
take_start ts name = do
  phase ← phase_index name
  let made : Timers = if ts.timer_arr phase then ts else record ts {
    timer_arr = put ts.timer_arr phase true;
    cancel_ch = put ts.cancel_ch phase (some (make_chan 10));
  }
  ok (record made { waiting = made.waiting ++ name ∷ [] })

-- `case phaseName := <-TimerStopCh`. A send on a nil channel blocks for ever.
unfoldable pub take_stop : Timers → String → Outcome Timers
take_stop ts name = do
  phase ← phase_index name
  elim (ts.cancel_ch phase) [
    | none ↦ blocked
    | some ch ↦ (do
      told ← sent (send ch 0)
      ok (record ts { cancel_ch = put ts.cancel_ch phase (some told) }))
  ]

-- One occurrence of a name less.
abbrev pub without : String → List String → List String
without name [] = []
without name (other ∷ rest) = if text_beq other name then rest else other ∷ without name rest

-- `case <-cancelCh[phase]`, in a goroutine that waits for the phase.
unfoldable pub take_cancel : Timers → String → Outcome Timers
take_cancel ts name = do
  phase ← phase_index name
  elim (ts.cancel_ch phase) [
    | none ↦ blocked
    | some ch ↦ elim ch.queue [
      | [] ↦ blocked
      | token ∷ rest ↦ ok (record ts {
        cancel_ch = put ts.cancel_ch phase (some (record ch { queue = rest }));
        waiting = without name ts.waiting;
      })
    ]
  ]

-- What the goroutines do, in order: a name is taken from the channel of starts or of stops, or a
-- goroutine that waits for a phase is cancelled.
pub data TimerEvent : Type 0 where
  start stop cancel : String → TimerEvent

unfoldable pub run_timers : Timers → List TimerEvent → Outcome Timers
unfolding take_start take_stop take_cancel
run_timers ts [] = ok ts
run_timers ts (start name ∷ events) = do started ← take_start ts name; run_timers started events
run_timers ts (stop name ∷ events) = do stopped ← take_stop ts name; run_timers stopped events
run_timers ts (cancel name ∷ events) = do
  cancelled ← take_cancel ts name
  run_timers cancelled events
