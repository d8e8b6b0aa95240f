-- ===== src/System.antt =====
-- The goroutines of a node as one relation (NewNode and startTransitionWithDeadline of
-- pbft/network/node.go, receiveLoop of pbft/network/proxy_server.go): a step is one round of one of them,
-- and any of them may be next. View changes are not steps here:
-- System.Viewing adds them.
pub mod Mail
pub mod Beginning
pub mod Outgoing
pub mod Leaving
pub mod Passing
pub mod Relaying
pub mod Network
pub mod Lingering
pub mod Lasting
pub mod Sweeping
pub mod Silence
pub mod Integrity
pub mod Renewing
pub mod Viewing
pub mod Cutting
pub mod Marks
pub mod Origin
pub mod Validity
pub mod Arriving
pub mod Logging
pub mod Ending
pub mod Answering
pub mod Counting
pub mod Hearing
pub mod Frames
pub mod Safety
use pa_bft.Base.{int64_key, ℕ, ◌≡◌, Bool, true, false, String, Option, none, some, List, []}
use pa_bft.Base.Map.{lookup, insert}
use pa_bft.Base.Chan.{Chan, take}
use pa_bft.Base.Outcome.{Outcome, ok}
use pa_bft.Message.{Message, view_change, new_view, PrepareMsg}
use pa_bft.State.{State}
use pa_bft.Node.{Node, NodeInfo}
use pa_bft.Node.Threads.{Env}
use pa_bft.Node.ViewChanging.{Finish}
use pa_bft.Node.Handlers.{late_mark}
use pa_bft.Node.Expiry.{handle, expire_prepare, expire_vote, expire_collate}
use pa_bft.Node.Dispatch.{dispatch_entrance, resolve_msg}
use pa_bft.Node.Execute.{Pairs, execute_msg}
use pa_bft.Server.{Wire, receive, send_genesis_msg_if_primary}
use pa_bft.Server.Sending.{Link, LogEvent, send_msg, log_error_msg}

-- A node, and the local map of its executor.
pub record System : Type 0 where
  pub node : Node
  pub pairs : Pairs

-- What a handler returns as the state of its thread goes back to the thread.
abbrev pub put_state : Node → ℕ → State → Node
put_state node seq s = record node { states = insert seq s node.states }

abbrev pub changes_view : Message → Bool
changes_view (view_change m) = true
changes_view (new_view m) = true
changes_view _ = false

-- A thread takes the name of a phase, to start or to stop its timer, or one of its two goroutines takes
-- the word to exit. What follows in the timers is that of Node.Timers; here a timer may end at any time.
pub data Signal : State → State → Type 0 where
  starts :
      (s : State) (name : String) (rest : Chan String)
      → take s.timer_start_ch ≡ some (name, rest)
      → Signal s (record s { timer_start_ch = rest })
  stops :
      (s : State) (name : String) (rest : Chan String)
      → take s.timer_stop_ch ≡ some (name, rest)
      → Signal s (record s { timer_stop_ch = rest })
  exits_timers :
      (s : State) (word : ℕ) (rest : Chan ℕ)
      → take s.msg_exit ≡ some (word, rest)
      → Signal s (record s { msg_exit = rest })
  exits_messages :
      (s : State) (word : ℕ) (rest : Chan ℕ)
      → take s.msg_exit1 ≡ some (word, rest)
      → Signal s (record s { msg_exit1 = rest })

-- A handler is one step, but for the unlocked test of `Prepared`: the two goroutines of a thread may both
-- find 0, and `marks_late` is the addition of the second one. Once it is not 0, no test finds 0.
pub data Step (env : Env) (w : Wire) : System → System → Type 0 where
  receives :
      (sender : NodeInfo) (message : String) (node node' : Node) (pairs : Pairs)
      → receive w sender node message ≡ ok node'
      → Step env w (record { node = node; pairs = pairs }) (record { node = node'; pairs = pairs })
  dispatches :
      (msg : Message) (rest : Chan Message) (node node' : Node) (pairs : Pairs)
      → take node.msg_entrance ≡ some (msg, rest)
      → dispatch_entrance (record node { msg_entrance = rest }) msg ≡ ok node'
      → Step env w (record { node = node; pairs = pairs }) (record { node = node'; pairs = pairs })
  resolves :
      (msg : Message) (rest : Chan Message) (node node' : Node) (pairs : Pairs)
      → take node.msg_delivery ≡ some (msg, rest)
      → resolve_msg (record node { msg_delivery = rest }) msg ≡ ok node'
      → Step env w (record { node = node; pairs = pairs }) (record { node = node'; pairs = pairs })
  handles :
      (seq addr now : ℕ) (s s' : State) (msg : Message) (rest : Chan Message) (node node' : Node)
      (pairs : Pairs) (end : Finish)
      → lookup seq node.states ≡ some s
      → take s.msg_state ≡ some (msg, rest)
      → changes_view msg ≡ false
      → handle env node (record s { msg_state = rest }) msg addr now ≡ ok (node', s', end)
      → Step env w
          (record { node = node; pairs = pairs })
          (record { node = put_state node' seq s'; pairs = pairs })
  ends_prepare :
      (seq : ℕ) (s s' : State) (node node' : Node) (pairs : Pairs)
      → lookup seq node.states ≡ some s
      → expire_prepare env node s seq ≡ ok (node', s')
      → Step env w
          (record { node = node; pairs = pairs })
          (record { node = put_state node' seq s'; pairs = pairs })
  ends_vote :
      (seq : ℕ) (s : State) (node node' : Node) (pairs : Pairs)
      → lookup seq node.states ≡ some s
      → expire_vote env node s ≡ ok node'
      → Step env w (record { node = node; pairs = pairs }) (record { node = node'; pairs = pairs })
  ends_collate :
      (seq : ℕ) (s : State) (node node' : Node) (pairs : Pairs)
      → lookup seq node.states ≡ some s
      → expire_collate env node s ≡ ok node'
      → Step env w (record { node = node; pairs = pairs }) (record { node = node'; pairs = pairs })
  executes :
      (received : Option PrepareMsg) (rest : Chan (Option PrepareMsg)) (node node' : Node)
      (pairs pairs' : Pairs)
      → take node.msg_execution ≡ some (received, rest)
      → execute_msg (record node { msg_execution = rest }) pairs received ≡ ok (node', pairs')
      → Step env w (record { node = node; pairs = pairs }) (record { node = node'; pairs = pairs' })
  sends :
      (l : Link) (node node' : Node) (pairs : Pairs) (frame : Option (String × String))
      → send_msg l node ≡ ok (node', frame)
      → Step env w (record { node = node; pairs = pairs }) (record { node = node'; pairs = pairs })
  prints :
      (left left' : ℕ) (node node' : Node) (pairs : Pairs) (events : List LogEvent)
      → log_error_msg node left ≡ ok (node', left', events)
      → Step env w (record { node = node; pairs = pairs }) (record { node = node'; pairs = pairs })
  begins :
      (now : ℕ) (node node' : Node) (pairs : Pairs)
      → send_genesis_msg_if_primary env node now ≡ ok node'
      → Step env w (record { node = node; pairs = pairs }) (record { node = node'; pairs = pairs })
  marks_late :
      (seq : ℕ) (s : State) (node node' : Node) (pairs : Pairs)
      → lookup seq node.states ≡ some s
      → node.prepared seq ≡ 1
      → late_mark node seq ≡ ok node'
      → Step env w (record { node = node; pairs = pairs }) (record { node = node'; pairs = pairs })
  signals :
      (seq : ℕ) (s s' : State) (node : Node) (pairs : Pairs)
      → lookup seq node.states ≡ some s
      → Signal s s'
      → Step env w
          (record { node = node; pairs = pairs })
          (record { node = put_state node seq s'; pairs = pairs })

-- Any number of steps.
pub data Run (env : Env) (w : Wire) : System → System → Type 0 where
  stay : (sys : System) → Run env w sys sys
  go : (a b c : System) → Step env w a b → Run env w b c → Run env w a c
