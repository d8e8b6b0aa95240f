-- ===== src/System/Beginning.antt =====
-- receiveLoop (pbft/network/proxy_server.go) among the other goroutines of a node.
use pa_bft.Base.{◌≡◌, Bool, true, false, String, Option, none, some, List, [], ◌∷◌, arith}
use mathlib.Core.Path.{subst}
use pa_bft.Base.Outcome.{ok, bind-returns}
use pa_bft.Node.{Node, NodeInfo}
use pa_bft.Node.Execute.{Pairs}
use pa_bft.Node.Threads.{Env}
use pa_bft.Server.{Wire, receive}
use pa_bft.Server.Listening.{LoopEnd, receive_loop}
use pa_bft.System.{Run, stay, go, receives}

same-Run :
    (env : Env) (w : Wire) (node node' : Node) (pairs : Pairs)
    → node ≡ node'
    → Run env w (record { node = node; pairs = pairs }) (record { node = node'; pairs = pairs })
same-Run env w node node' pairs e =
    subst
      (λ n. Run env w (record { node = node; pairs = pairs }) (record { node = n; pairs = pairs }))
      e (stay (record { node = node; pairs = pairs }))

-- A receive loop that has the node to itself is a run of the system: whatever its reads give, and
-- however often the connection is opened again, it does nothing to the node but receive messages.
pub receive_loop-Run :
    (env : Env) (w : Wire) (sender : NodeInfo) (node node' : Node) (pairs : Pairs)
    (reads : List (Option String)) (dials : List Bool) (end : LoopEnd)
    → receive_loop w sender node reads dials ≡ ok (node', end)
    → Run env w (record { node = node; pairs = pairs }) (record { node = node'; pairs = pairs })
unfolding receive_loop
receive_loop-Run env w sender node node' pairs [] dials end h =
    same-Run env w node node' pairs (ground arith)
receive_loop-Run env w sender node node' pairs (some message ∷ reads) dials end h =
    let (next, rest, one) = bind-returns (receive w sender node message) _ h in
    go (record { node = node; pairs = pairs }) (record { node = next; pairs = pairs })
      (record { node = node'; pairs = pairs }) (receives sender message node next pairs one)
      (receive_loop-Run env w sender next node' pairs reads dials end rest)
receive_loop-Run env w sender node node' pairs (none ∷ reads) [] end h =
    same-Run env w node node' pairs (ground arith)
receive_loop-Run env w sender node node' pairs (none ∷ reads) (false ∷ dials) end h =
    same-Run env w node node' pairs (ground arith)
receive_loop-Run env w sender node node' pairs (none ∷ []) (true ∷ dials) end h =
    same-Run env w node node' pairs (ground arith)
receive_loop-Run env w sender node node' pairs (none ∷ again ∷ reads) (true ∷ dials) end h =
    receive_loop-Run env w sender node node' pairs reads dials end h
