-- ===== src/Server/Breaking.antt =====
-- What receiveLoop (pbft/network/proxy_server.go) does with a connection that fails.
use pa_bft.Base.{◌≡◌, refl, Bool, true, false, String, Option, none, some, List, [], ◌∷◌, ◌++◌, map}
use pa_bft.Base.Outcome.{Outcome, ok, ◌>>=◌, bind-same}
use pa_bft.Node.{Node, NodeInfo}
use pa_bft.Server.{Wire, receive}
use pa_bft.Server.Listening.{listening, exited, receive_loop}

-- Messages that are received one after the other.
pub receive_all : Wire → NodeInfo → Node → List String → Outcome Node
receive_all w sender node [] = ok node
receive_all w sender node (message ∷ rest) = do
  node' ← receive w sender node message
  receive_all w sender node' rest

receive_loop-read :
    (w : Wire) (sender : NodeInfo) (node : Node) (messages : List String)
    (reads : List (Option String)) (dials : List Bool)
    → receive_loop w sender node (map some messages ++ reads) dials
      ≡ (receive_all w sender node messages >>= λ n. receive_loop w sender n reads dials)
unfolding receive_loop receive_all
receive_loop-read w sender node [] reads dials = refl
receive_loop-read w sender node (m ∷ messages) reads dials =
    bind-same (receive w sender node m) _ _ _ λ n. receive_loop-read w sender n messages reads dials

-- The receive loop takes in every message up to a failed read. Then it goes on behind the first read of
-- the new connection, whose message, if there is one, is lost; or it ends the program, if the
-- connection cannot be opened again. Without a failed read it goes on listening.
pub receive_loop-breaks :
    (w : Wire) (sender : NodeInfo) (node : Node) (messages : List String) (again : Option String)
    (reads : List (Option String)) (dials : List Bool)
    → (receive_loop w sender node (map some messages ++ none ∷ again ∷ reads) (true ∷ dials)
        ≡ (receive_all w sender node messages >>= λ n. receive_loop w sender n reads dials))
      × (receive_loop w sender node (map some messages ++ none ∷ reads) (false ∷ dials)
          ≡ (receive_all w sender node messages >>= λ n. ok (n, exited)))
      × (receive_loop w sender node (map some messages ++ []) dials
          ≡ (receive_all w sender node messages >>= λ n. ok (n, listening)))
unfolding receive_loop
receive_loop-breaks w sender node messages again reads dials = (
  receive_loop-read w sender node messages (none ∷ again ∷ reads) (true ∷ dials),
  receive_loop-read w sender node messages (none ∷ reads) (false ∷ dials),
  receive_loop-read w sender node messages [] dials,
)
