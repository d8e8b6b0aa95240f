-- ===== src/Server/Genesis.antt =====
-- What sendGenesisMsgIfPrimary (pbft/network/proxy_server.go) leaves alone.
use pa_bft.Base.{ℕ, ◌≡◌, arith}
use pa_bft.Base.Outcome.{ok}
use pa_bft.Node.{Node}
use pa_bft.Node.Threads.{Env}
use pa_bft.Server.{send_genesis_msg_if_primary}

pub send_genesis_msg_if_primary-frame :
    (env : Env) (node node' : Node) (now : ℕ)
    → send_genesis_msg_if_primary env node now ≡ ok node'
    → node' ≡ record node {
      view = node'.view;
      epoch_id = node'.epoch_id;
      msg_outbound = node'.msg_outbound;
    }
unfolding send_genesis_msg_if_primary
send_genesis_msg_if_primary-frame env node node' now h = ground arith
