-- ===== src/Server/Sending.antt =====
-- sendMsg and logErrorMsg (pbft/network/node.go), and broadcast and attachSignatureMsg
-- (pbft/network/proxy_server.go): a message is signed, wrapped and written to a connection.
-- Sockets, JSON and the signature are parameters (`Link`).
use Prim.Native.String.{◌++◌ as text_append}
use pa_bft.Base.{ℕ, ◌-◌, ◌==◌, String, Option, none, some, Bool, List, [], ◌∷◌, ◌&&◌, if◌then◌else◌}
use pa_bft.Base.Chan.{take}
use pa_bft.Base.Outcome.{Outcome, ok, blocked, ◌>>=◌}
use pa_bft.State.{Error, connection_failed}
use pa_bft.Node.{Node, Payload}
use pa_bft.Node.Threads.{report}
use pa_bft.Server.Signing.{SignatureMsg, Ecdsa, sign}

-- The JSON text of a message and of a signed message, ECDSA, and whether a connection can be opened and
-- written to.
pub record Link : Type 0 where
  pub encode : Payload → String
  pub ecdsa : Ecdsa
  pub pack : SignatureMsg → String
  pub dials : String → Bool
  pub writes : String → String → Bool

-- `var sigMgs consensus.SignatureMsg`
abbrev pub zero_signature_msg : SignatureMsg
zero_signature_msg = record {
  signature = "";
  r = none;
  s = none;
  msg_type = "";
  marshalled_msg = "";
}

-- Where the signature fails, the zero message is packed.
unfoldable pub attach_signature_msg : Link → String → String → Outcome String
unfolding sign
attach_signature_msg l msg path = do
  signed ← sign l.ecdsa msg
  ok (
      l.pack (elim signed [
        | none ↦ zero_signature_msg
        | some (r, s, signature) ↦ record {
          signature = signature;
          r = some r;
          s = some s;
          msg_type = path;
          marshalled_msg = msg;
        }
      ]))

-- The address of every message is that of "/prepare"; the path stands in the signed message only.
abbrev pub prepare_url : String → String
prepare_url ip = text_append "ws://" (text_append ip "/prepare")

-- What is written, as address and text, and whether an error is reported.
unfoldable pub broadcast_to :
    Link → String → String → String → Outcome (Option (String × String) × Option Error)
unfolding attach_signature_msg
broadcast_to l ip msg path = do
  let url = prepare_url ip
  text ← attach_signature_msg l msg path
  ok (
      if l.dials url && l.writes url text
      then (some (url, text), none)
      else (none, some connection_failed))

-- One message of the loop of `sendMsg`: it is taken, sent, and a failure is reported.
unfoldable pub send_msg : Link → Node → Outcome (Node × Option (String × String))
unfolding broadcast_to report
send_msg l node = elim (take node.msg_outbound) [
  | none ↦ blocked
  | some (out, rest) ↦ (do
    (frame, err) ← broadcast_to l out.ip (l.encode out.msg) out.path
    reported ← report (record node { msg_outbound = rest }) err
    ok (reported, frame))
]

-- const CoolingTotalErrMsg = 30
abbrev pub cooling_total_err_msg : ℕ
cooling_total_err_msg = 30

-- What `logErrorMsg` does: a line of its own and a pause, or the line of an error.
pub data LogEvent : Type 0 where
  cool_down : LogEvent
  printed : Error → LogEvent

-- The inner loop over a slice of errors; the first number is `coolingMsgLeft`.
unfoldable pub log_errors : ℕ → List Error → ℕ × List LogEvent
log_errors left [] = (left, [])
log_errors left (e ∷ errs) =
    if left - 1 == 0
    then (let (left', events) = log_errors cooling_total_err_msg errs in
        (left', cool_down ∷ printed e ∷ events))
    else (let (left', events) = log_errors (left - 1) errs in (left', printed e ∷ events))

-- One round of `logErrorMsg`: a slice is taken from `MsgError`.
unfoldable pub log_error_msg : Node → ℕ → Outcome (Node × ℕ × List LogEvent)
unfolding log_errors
log_error_msg node left = elim (take node.msg_error) [
  | none ↦ blocked
  | some (errs, rest) ↦
      let (left', events) = log_errors left errs in
      ok (record node { msg_error = rest }, left', events)
]
