-- ===== src/Node/Waiting.antt =====
-- When the timer goroutine of a sequence number (pbft/network/node.go) goes on.
use pa_bft.Base.{
  ℕ, ◌≡◌, ◌==◌, ◌||◌, refl, String, Bool, true, false, List, [], ◌∷◌, if◌then◌else◌, arith,
}
use pa_bft.Base.Outcome.{ok, returns, bind-returns, returns-ok}
use pa_bft.Node.Starting.{is_some}
use pa_bft.Node.Timers.{
  Timers, TimerEvent, start, stop, cancel, take_cancel, num_of_phase, take_start, take_stop,
  run_timers, no_timers,
}

-- A phase is stopped only after it was started; `started` tells which were started before.
abbrev pub starts_first : (ℕ → Bool) → List TimerEvent → Bool
starts_first started [] = true
starts_first started (start name ∷ events) =
    starts_first (λ i. (num_of_phase name == i) || started i) events
starts_first started (stop name ∷ events) =
    if started (num_of_phase name) then starts_first started events else false
starts_first started (cancel name ∷ events) = starts_first started events

-- A phase has a channel exactly where it was started.
abbrev Opened : Timers → (ℕ → Bool) → Type 0
Opened ts started = (i : ℕ) → (is_some (ts.cancel_ch i) ≡ started i) × (ts.timer_arr i ≡ started i)

take_start-Opened :
    (ts ts' : Timers) (started : ℕ → Bool) (name : String)
    → Opened ts started
    → take_start ts name ≡ ok ts'
    → Opened ts' (λ i. (num_of_phase name == i) || started i)
unfolding take_start
take_start-Opened ts ts' started name o h i = ground (arith, o i, o (num_of_phase name))

take_stop-Opened :
    (ts ts' : Timers) (started : ℕ → Bool) (name : String)
    → Opened ts started
    → take_stop ts name ≡ ok ts'
    → Opened ts' started × (started (num_of_phase name) ≡ true)
unfolding take_stop
take_stop-Opened ts ts' started name o h =
    (λ i. ground (arith, o i, o (num_of_phase name)), ground (arith, o (num_of_phase name)))

take_cancel-Opened :
    (ts ts' : Timers) (started : ℕ → Bool) (name : String)
    → Opened ts started
    → take_cancel ts name ≡ ok ts'
    → Opened ts' started
unfolding take_cancel
take_cancel-Opened ts ts' started name o h i = ground (arith, o i, o (num_of_phase name))

run_timers-Opened :
    (ts ts' : Timers) (started : ℕ → Bool) (events : List TimerEvent)
    → Opened ts started
    → run_timers ts events ≡ ok ts'
    → starts_first started events ≡ true
unfolding run_timers
run_timers-Opened ts ts' started [] o h = refl
run_timers-Opened ts ts' started (start name ∷ events) o h =
    let (next, rest, e) = bind-returns (take_start ts name) _ h in
    run_timers-Opened next ts' (λ i. (num_of_phase name == i) || started i) events
      (take_start-Opened ts next started name o e) rest
run_timers-Opened ts ts' started (stop name ∷ events) o h =
    let (next, rest, e) = bind-returns (take_stop ts name) _ h in
    let (o', here) = take_stop-Opened ts next started name o e in
    ground (arith, run_timers-Opened next ts' started events o' rest)
run_timers-Opened ts ts' started (cancel name ∷ events) o h =
    let (next, rest, e) = bind-returns (take_cancel ts name) _ h in
    run_timers-Opened next ts' started events (take_cancel-Opened ts next started name o e) rest

-- The timer goroutine gets past a sequence of starts, stops and cancellations only if each phase that
-- is stopped was started before: a stop that comes first is a send on a nil channel.
pub run_timers-starts_first :
    (events : List TimerEvent)
    → returns (run_timers no_timers events) ≡ true
    → starts_first (λ i. false) events ≡ true
run_timers-starts_first events h =
    let (ts, e) = returns-ok (run_timers no_timers events) h in
    run_timers-Opened no_timers ts (λ i. false) events (λ i. (refl, refl)) e
