-- ===== src/Server/Listening.antt =====
-- setReceiveLoop, DialOtherNodes and the whole of receiveLoop (pbft/network/proxy_server.go). What the
-- sockets do is an argument: whether a connection can be opened, and what its reads give.
use Prim.Native.String.{◌++◌ as text_append}
use pa_bft.Base.{ℕ, Bool, true, false, String, Option, none, some, List, [], ◌∷◌, if◌then◌else◌}
use pa_bft.Base.Outcome.{Outcome, ok, ◌>>=◌}
use pa_bft.Node.{Node, NodeInfo}
use pa_bft.Node.Threads.{Env}
use pa_bft.Server.{Wire, receive, send_genesis_msg_if_primary}

-- How the loop stands where the reads or the connections that are given are used up, and whether
-- log.Fatal has ended the program.
pub data LoopEnd : Type 0 where
  listening exited : LoopEnd

-- A read gives a message, or it fails. Then the connection is opened again, and what the first read on
-- the new one gives is not looked at.
unfoldable pub receive_loop :
    Wire → NodeInfo → Node → List (Option String) → List Bool → Outcome (Node × LoopEnd)
receive_loop w sender node [] dials = ok (node, listening)
receive_loop w sender node (some message ∷ reads) dials = do
  node' ← receive w sender node message
  receive_loop w sender node' reads dials
receive_loop w sender node (none ∷ reads) [] = ok (node, listening)
receive_loop w sender node (none ∷ reads) (false ∷ dials) = ok (node, exited)
receive_loop w sender node (none ∷ []) (true ∷ dials) = ok (node, listening)
receive_loop w sender node (none ∷ again ∷ reads) (true ∷ dials) =
    receive_loop w sender node reads dials

-- A connection to the node; a failure ends the program.
unfoldable pub set_receive_loop : (String → Bool) → String → NodeInfo → Bool
set_receive_loop dials path info = dials (text_append "ws://" (text_append info.url path))

-- The nodes whose receive loops are started, or the end of the program.
unfoldable pub dial_all : (String → Bool) → List NodeInfo → Option (List NodeInfo)
unfolding set_receive_loop
dial_all dials [] = some []
dial_all dials (info ∷ rest) =
    let more = dial_all dials rest in
    if set_receive_loop dials "/prepare" info
    then elim more [ none ↦ none | some infos ↦ some (info ∷ infos) ]
    else none

unfoldable pub dial_other_nodes :
    Env → (String → Bool) → Node → ℕ → Outcome (Option (Node × List NodeInfo))
unfolding dial_all
dial_other_nodes env dials node now = elim (dial_all dials node.node_table) [
  | none ↦ ok none
  | some loops ↦ (do begun ← send_genesis_msg_if_primary env node now; ok (some (begun, loops)))
]
