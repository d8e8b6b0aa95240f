-- ===== src/System/Lingering.antt =====
-- Threads that a view change has taken out of `States` (GetViewChange and GetNewView of
-- pbft/network/view.go). Their timer goroutine is told to exit; the other one goes on with the messages
-- that it has (startTransitionWithDeadline of pbft/network/node.go).
use pa_bft.Base.{int64_key, ℕ, zero, suc, ◌≡◌, true, false, none, some, List, [], ◌∷◌, add64}
use pa_bft.Base.Map.{lookup}
use pa_bft.Base.Chan.{Chan, take, send}
use pa_bft.Base.Outcome.{ok}
use pa_bft.Message.{Message, ViewChangeMsg, NewViewMsg, view_change, new_view}
use pa_bft.State.{State}
use pa_bft.ViewChange.{view_change as view_change_on}
use pa_bft.Node.{Node}
use pa_bft.Node.Threads.{Env}
use pa_bft.Node.Filling.{le64, gap}
use pa_bft.Node.Handlers.{late_mark}
use pa_bft.Node.Expiry.{handle, expire_prepare, expire_vote, expire_collate}
use pa_bft.Node.ViewChanging.{
  Finish, vc_state_for, start_view_change, get_view_change, get_new_view,
}
use pa_bft.Server.{Wire}
use pa_bft.System.{System, Signal, changes_view, put_state}
use pa_bft.System.Viewing.{WholeStep, changes_view_at, installs_view}

-- A thread with the word to exit on the channel of its timers.
abbrev pub told : State → State
told s = record s {
  msg_exit = elim (send s.msg_exit 0) [ none ↦ s.msg_exit | some queued ↦ queued ];
}

-- The threads that the loop of a view change finds, with their sequence numbers.
unfoldable pub threads_from : ℕ → Node → ℕ → ℕ → List (ℕ × State)
threads_from zero node i totalcon = []
threads_from (suc fuel) node i totalcon = elim (le64 i totalcon) [
  | false ↦ []
  | true ↦ elim (lookup i node.states) [
    | none ↦ threads_from fuel node (add64 i 1) totalcon
    | some s ↦ (i, told s) ∷ threads_from fuel node (add64 i 1) totalcon
  ]
]

unfoldable pub threads_dropped : Node → ℕ → List (ℕ × State)
unfolding threads_from
threads_dropped node seq =
    threads_from (suc (suc (gap seq node.total_consensus))) node seq node.total_consensus

-- GetViewChange drops threads when its message completes the quorum.
unfoldable pub threads_dropped_by : Node → ViewChangeMsg → ℕ → ℕ → List (ℕ × State)
unfolding threads_dropped vc_state_for
threads_dropped_by node m addr now =
    elim (view_change_on (vc_state_for node m.sequence_id addr).1 m now).1 [
      | none ↦ []
      | some nv ↦ threads_dropped node nv.sequence_id
    ]

-- The threads that a step of the node takes out of `States`.
abbrev pub leaving : {env : Env} {w : Wire} {a b : System} → WholeStep env w a b → List (ℕ × State)
leaving (changes_view_at seq addr now s m rest node node' pairs e t h) =
    threads_dropped_by (put_state node seq (record s { msg_state = rest })) m addr now
leaving (installs_view seq addr now s m rest node node' pairs end e t h) =
    threads_dropped (put_state node seq (record s { msg_state = rest })) m.sequence_id
leaving _ = []

-- A step of such a thread, of sequence number `seq`: the node and the thread before and after it, and
-- the threads that the step drops in its turn. The timers may end until they see the word to exit.
pub data Lingers (env : Env) (seq : ℕ)
    : Node → State → Node → State → List (ℕ × State) → Type 0 where
  handles_late :
      (addr now : ℕ) (s s' : State) (msg : Message) (rest : Chan Message) (node node' : Node)
      (end : Finish)
      → take s.msg_state ≡ some (msg, rest)
      → changes_view msg ≡ false
      → handle env node (record s { msg_state = rest }) msg addr now ≡ ok (node', s', end)
      → Lingers env seq node s node' s' []
  changes_view_late :
      (addr now : ℕ) (s : State) (m : ViewChangeMsg) (rest : Chan Message) (node node' : Node)
      → take s.msg_state ≡ some (view_change m, rest)
      → get_view_change node m addr now ≡ ok node'
      → Lingers env seq node s node'
          (record s { msg_state = rest })
          (threads_dropped_by node m addr now)
  installs_view_late :
      (addr now : ℕ) (s : State) (m : NewViewMsg) (rest : Chan Message) (node node' : Node)
      (end : Finish)
      → take s.msg_state ≡ some (new_view m, rest)
      → get_new_view env node m addr now ≡ ok (node', end)
      → Lingers env seq node s node'
          (record s { msg_state = rest })
          (threads_dropped node m.sequence_id)
  ends_prepare_late :
      (s s' : State) (node node' : Node)
      → expire_prepare env node s seq ≡ ok (node', s')
      → Lingers env seq node s node' s' []
  ends_vote_late :
      (s : State) (node node' : Node)
      → expire_vote env node s ≡ ok node'
      → Lingers env seq node s node' s []
  ends_collate_late :
      (s : State) (node node' : Node)
      → expire_collate env node s ≡ ok node'
      → Lingers env seq node s node' s []
  ends_view_change_late :
      (s : State) (node node' : Node)
      → start_view_change node s.sequence_id ≡ ok node'
      → Lingers env seq node s node' s []
  marks_later :
      (s : State) (node node' : Node)
      → late_mark node seq ≡ ok node'
      → Lingers env seq node s node' s []
  signals_late : (s s' : State) (node : Node) → Signal s s' → Lingers env seq node s node s' []
