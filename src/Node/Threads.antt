-- ===== src/Node/Threads.antt =====
-- pbft/network/node.go and PrepareMsgMaking of pbft/network/proxy_server.go: what the handlers call to
-- send, to start the thread of a sequence number, and to propose. `data`, the text that the node
-- proposes, is the 2 ^ 20 bytes that the code fills in; it is only passed on, so it is an argument.
use text.Mathlib.Text.{◌==◌ as text_beq}
use pa_bft.Base.{
  int64_key, ℕ, ◌-◌, ◌^◌, ◌==◌, String, Option, none, some, [], ◌∷◌, length, add64, sub64, rem64,
  if◌then◌else◌,
}
use pa_bft.Base.Map.{lookup, insert}
use pa_bft.Base.Chan.{send}
use pa_bft.Base.Outcome.{Outcome, ok, sent, ◌>>=◌}
use pa_bft.Message.{RequestMsg, PrepareMsg, ReqPrepareMsgs, VoteMsgs, VoteRef}
use pa_bft.State.{State, Error, create_state}
use pa_bft.Node.{Node, Payload, prepares}
use pa_bft.Node.Primary.{update_view_id, update_epoch_id, get_primary_info_by_id}

-- What the handlers take from outside: the digest of a request, the text to propose, and the entry
-- that a `range` over a map of votes yields first.
pub record Env : Type 0 where
  pub digest : Option RequestMsg → Option String
  pub dummy : String
  pub first : VoteMsgs → Option (Option VoteRef)

unfoldable pub broadcast : Node → Payload → String → Outcome Node
broadcast node msg path = do
  outbound ←
      sent (send node.msg_outbound (record { ip = node.my_info.url; msg = msg; path = path }))
  ok (record node { msg_outbound = outbound })

-- `node.MsgError <- []error{err}`, where there is an error.
unfoldable pub report : Node → Option Error → Outcome Node
report node none = ok node
report node (some e) = do
  errors ← sent (send node.msg_error (e ∷ []))
  ok (record node { msg_error = errors })

-- `node.MsgExecution <- prepareMsg`
unfoldable pub execute : Node → Option PrepareMsg → Outcome Node
execute node p = do
  execution ← sent (send node.msg_execution p)
  ok (record node { msg_execution = execution })

unfoldable pub start_timer : State → String → Outcome State
start_timer s phase = do
  started ← sent (send s.timer_start_ch phase)
  ok (record s { timer_start_ch = started })

unfoldable pub stop_timer : State → String → Outcome State
stop_timer s phase = do
  stopped ← sent (send s.timer_stop_ch phase)
  ok (record s { timer_stop_ch = stopped })

unfoldable pub create_state_for : Node → ℕ → State
unfolding create_state
create_state_for node seq_id =
    create_state node.view.id node.my_info.node_id (length node.node_table) seq_id

-- A new thread is told to start its prepare timer.
unfoldable pub start_thread_if_not_exists : Node → ℕ → Outcome (Node × State)
unfolding create_state_for start_timer
start_thread_if_not_exists node seq_id = elim (lookup seq_id node.states) [
  | some s ↦ ok (node, s)
  | none ↦ (do
    s ← start_timer (create_state_for node seq_id) "Prepare"
    ok (
      record node {
        states = insert seq_id s node.states;
        total_consensus = add64 node.total_consensus 1;
      },
      s,
    ))
]

-- A digest that fails is printed, and the empty text is used.
abbrev pub digest_or_empty : Option String → String
digest_or_empty none = ""
digest_or_empty (some d) = d

-- `now` is the clock.
unfoldable pub prepare_msg_making :
    Env → String → String → ℕ → ℕ → String → ℕ → ℕ → ℕ → ReqPrepareMsgs
prepare_msg_making env operation client_id view_id s_id node_id seed epoch_id now =
    let request : RequestMsg = record {
      timestamp = now;
      client_id = client_id;
      operation = operation;
      payload = env.dummy;
      sequence_id = s_id;
    } in
    record {
      request_msg = some request;
      prepare_msg = record {
        view_id = view_id;
        sequence_id = s_id;
        digest = digest_or_empty (env.digest (some request));
        epoch_id = epoch_id;
        node_id = node_id;
        seed = seed;
      };
    }

-- The seed -1, as an int.
abbrev pub no_seed : ℕ
no_seed = 2 ^ 64 - 1

unfoldable pub broad_cast_next_prepare_msg_if_primary : Env → Node → ℕ → ℕ → Outcome Node
unfolding prepare_msg_making broadcast
broad_cast_next_prepare_msg_if_primary env node sequence_id now = do
  let before = sub64 sequence_id 1
  viewed ← update_view_id node before
  let dated = if rem64 before 10 == 0 then update_epoch_id viewed before else viewed
  primary ← get_primary_info_by_id dated dated.view.id
  if text_beq primary.node_id dated.my_info.node_id
      then broadcast dated
          (prepares (
            prepare_msg_making env "Op1" "Client1" dated.view.id sequence_id dated.my_info.node_id
              no_seed dated.epoch_id now))
          "/prepare"
      else ok dated
