-- ===== src/System/Viewing.antt =====
-- The goroutines of a node with its view changes (pbft/network/node.go, pbft/network/view.go). A thread
-- that a view change drops is gone here, and one that GetNewView leaves waiting may go on.
use pa_bft.Base.{int64_key, ℕ, ◌≡◌, some}
use pa_bft.Base.Map.{lookup}
use pa_bft.Base.Chan.{Chan, take}
use pa_bft.Base.Outcome.{ok}
use pa_bft.Message.{Message, ViewChangeMsg, NewViewMsg, view_change, new_view}
use pa_bft.State.{State}
use pa_bft.Node.{Node}
use pa_bft.Node.Threads.{Env}
use pa_bft.Node.Execute.{Pairs}
use pa_bft.Node.Dispatch.{dispatch_view_entrance}
use pa_bft.Node.ViewChanging.{Finish, start_view_change, get_view_change, get_new_view}
use pa_bft.Server.{Wire}
use pa_bft.System.{System, Step, put_state}

-- A handler of a view change does not touch the state of its thread; the message is off the queue of
-- the thread before the handler starts.
pub data WholeStep (env : Env) (w : Wire) : System → System → Type 0 where
  inner : (a b : System) → Step env w a b → WholeStep env w a b
  dispatches_view :
      (msg : Message) (rest : Chan Message) (node node' : Node) (pairs : Pairs)
      → take node.view_msg_entrance ≡ some (msg, rest)
      → dispatch_view_entrance (record node { view_msg_entrance = rest }) msg ≡ ok node'
      → WholeStep env w
          (record { node = node; pairs = pairs })
          (record { node = node'; pairs = pairs })
  changes_view_at :
      (seq addr now : ℕ) (s : State) (m : ViewChangeMsg) (rest : Chan Message) (node node' : Node)
      (pairs : Pairs)
      → lookup seq node.states ≡ some s
      → take s.msg_state ≡ some (view_change m, rest)
      → get_view_change (put_state node seq (record s { msg_state = rest })) m addr now ≡ ok node'
      → WholeStep env w
          (record { node = node; pairs = pairs })
          (record { node = node'; pairs = pairs })
  installs_view :
      (seq addr now : ℕ) (s : State) (m : NewViewMsg) (rest : Chan Message) (node node' : Node)
      (pairs : Pairs) (end : Finish)
      → lookup seq node.states ≡ some s
      → take s.msg_state ≡ some (new_view m, rest)
      → get_new_view env (put_state node seq (record s { msg_state = rest })) m addr now
        ≡ ok (node', end)
      → WholeStep env w
          (record { node = node; pairs = pairs })
          (record { node = node'; pairs = pairs })
  ends_view_change :
      (seq : ℕ) (s : State) (node node' : Node) (pairs : Pairs)
      → lookup seq node.states ≡ some s
      → start_view_change node s.sequence_id ≡ ok node'
      → WholeStep env w
          (record { node = node; pairs = pairs })
          (record { node = node'; pairs = pairs })

pub data WholeRun (env : Env) (w : Wire) : System → System → Type 0 where
  ends : (sys : System) → WholeRun env w sys sys
  goes_on : (a b c : System) → WholeStep env w a b → WholeRun env w b c → WholeRun env w a c
