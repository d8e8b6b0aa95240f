-- ===== src/System/Network.antt =====
-- Nodes that send to one another (pbft/network/node.go, pbft/network/proxy_server.go). What a node sends
-- may reach any node, in any order, more than once or not at all; nothing else is received.
use pa_bft.Base.{
  ℕ, ◌≡◌, ◌==◌, if◌then◌else◌, Bool, true, false, String, Option, none, some, List, ◌∷◌, ◌++◌,
  Within,
}
use pa_bft.Base.Outcome.{ok}
use pa_bft.Node.{Node, NodeInfo}
use pa_bft.Node.Threads.{Env}
use pa_bft.Server.{Wire, receive}
use pa_bft.Server.Sending.{Link, send_msg}
use pa_bft.System.{System, receives, sends}
use pa_bft.System.Viewing.{WholeStep, inner}
use pa_bft.System.Lingering.{Lingers, leaving}
use pa_bft.State.{State}

-- The nodes, the threads that view changes have dropped and that go on, and what has been written to a
-- connection.
pub record Network : Type 0 where
  pub at : ℕ → System
  pub gone : ℕ → List (ℕ × State)
  pub frames : List String

abbrev pub put : {A : Type 0} → ℕ → A → (ℕ → A) → ℕ → A
put i new at j = if i == j then new else at j

abbrev pub add_frame : Option (String × String) → List String → List String
add_frame none frames = frames
add_frame (some (url, text)) frames = text ∷ frames

-- A step that neither receives nor sends.
abbrev pub is_local : {env : Env} {w : Wire} {a b : System} → WholeStep env w a b → Bool
is_local (inner a b (receives sender message node node' pairs h)) = false
is_local (inner a b (sends l node node' pairs frame h)) = false
is_local _ = true

module _ (env : ℕ → Env) (wire : ℕ → Wire) (link : ℕ → Link) where
  pub data NetStep : Network → Network → Type 0 where
    works :
        (net : Network) (i : ℕ) (sys : System) (step : WholeStep (env i) (wire i) (net.at i) sys)
        → is_local step ≡ true
        → NetStep net (record net {
          at = put i sys net.at;
          gone = put i (leaving step ++ net.gone i) net.gone;
        })
    lingers :
        (net : Network) (i seq : ℕ) (s s' : State) (node' : Node)
        (before after more : List (ℕ × State))
        → net.gone i ≡ before ++ (seq, s) ∷ after
        → Lingers (env i) seq (net.at i).node s node' s' more
        → NetStep net (record net {
          at = put i (record (net.at i) { node = node' }) net.at;
          gone = put i (more ++ (before ++ (seq, s') ∷ after)) net.gone;
        })
    speaks :
        (net : Network) (i : ℕ) (node' : Node) (frame : Option (String × String))
        → send_msg (link i) (net.at i).node ≡ ok (node', frame)
        → NetStep net (record net {
          at = put i (record (net.at i) { node = node' }) net.at;
          frames = add_frame frame net.frames;
        })
    hears :
        (net : Network) (i : ℕ) (sender : NodeInfo) (message : String) (node' : Node)
        → Within message net.frames
        → receive (wire i) sender (net.at i).node message ≡ ok node'
        → NetStep net (record net { at = put i (record (net.at i) { node = node' }) net.at })

  pub data NetRun : Network → Network → Type 0 where
    rests : (net : Network) → NetRun net net
    goes : (a b c : Network) → NetStep a b → NetRun b c → NetRun a c
