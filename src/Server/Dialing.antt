-- ===== src/Server/Dialing.antt =====
-- What DialOtherNodes (pbft/network/proxy_server.go) comes to.
use text.Mathlib.Text.{◌==◌ as text_beq}
use pa_bft.Base.{
  ℕ, ◌≡◌, ◌<◌, refl, Bool, true, false, String, none, some, List, [], ◌∷◌, ◌++◌, length, get_elem?,
  if◌then◌else◌, arith, Bool-cases, inl, inr,
}
use pa_bft.Base.Outcome.{ok}
use pa_bft.Node.{Node, NodeInfo, MsgOut, prepares}
use pa_bft.Node.Threads.{Env, prepare_msg_making, no_seed}
use pa_bft.Server.{send_genesis_msg_if_primary}
use pa_bft.Server.Listening.{set_receive_loop, dial_all, dial_other_nodes}

-- Each node of a list can be reached, or one cannot.
abbrev pub all_dialed : (String → Bool) → List NodeInfo → Bool
all_dialed dials [] = true
all_dialed dials (info ∷ rest) =
    if set_receive_loop dials "/prepare" info then all_dialed dials rest else false

dial_all-all :
    (dials : String → Bool) (table : List NodeInfo)
    → dial_all dials table ≡ (if all_dialed dials table then some table else none)
unfolding dial_all
dial_all-all dials [] = refl
dial_all-all dials (info ∷ rest) = ground (arith, dial_all-all dials rest)

-- The proposal for sequence number 1, in view 0 and epoch 0.
abbrev pub genesis : Env → Node → ℕ → MsgOut
genesis env node now = record {
  ip = node.my_info.url;
  msg = prepares (prepare_msg_making env "Op1" "Client1" 0 1 node.my_info.node_id no_seed 0 now);
  path = "/prepare";
}

-- The node in view 0 and epoch 0, before it sends.
abbrev pub in_view_0 : Node → NodeInfo → Node
in_view_0 node first = record node { view = record { id = 0; primary = some first }; epoch_id = 0 }

send_genesis_msg_if_primary-begins :
    (env : Env) (node : Node) (first : NodeInfo) (now : ℕ)
    → get_elem? node.node_table 0 ≡ some first
    → length node.msg_outbound.queue < node.msg_outbound.cap
    → (queue : List MsgOut) × (send_genesis_msg_if_primary env node now
        ≡ ok (record (in_view_0 node first) {
          msg_outbound = record node.msg_outbound { queue = queue };
        }))
      × (queue ≡ (
          if text_beq first.node_id node.my_info.node_id
          then node.msg_outbound.queue ++ genesis env node now ∷ []
          else node.msg_outbound.queue))
unfolding send_genesis_msg_if_primary
send_genesis_msg_if_primary-begins env node first now h room =
    elim (Bool-cases (text_beq first.node_id node.my_info.node_id)) [
      | inl mine ↦ (
        node.msg_outbound.queue ++ genesis env node now ∷ [],
        ground (arith, mine, h, room),
        ground (arith, mine),
      )
      | inr other ↦ (node.msg_outbound.queue, ground (arith, other, h), ground (arith, other))
    ]

-- A node whose table is not empty and whose outgoing channel has room dials every node of its table. If
-- one of them does not answer, the program ends. Otherwise a receive loop is started for each, in the
-- order of the table; the first node of the table becomes the primary of view 0, and the node sends the
-- first proposal exactly if it is called like the primary.
pub dial_other_nodes-begins :
    (env : Env) (dials : String → Bool) (node : Node) (first : NodeInfo) (now : ℕ)
    → get_elem? node.node_table 0 ≡ some first
    → length node.msg_outbound.queue < node.msg_outbound.cap
    → (all_dialed dials node.node_table ≡ false → dial_other_nodes env dials node now ≡ ok none)
      × (all_dialed dials node.node_table ≡ true
          → (begun : Node) × (dial_other_nodes env dials node now
              ≡ ok (some (begun, node.node_table)))
            × (begun.view.primary ≡ some first)
            × (begun.view.id ≡ 0)
            × (begun.msg_outbound.queue ≡ (
                if text_beq first.node_id node.my_info.node_id
                then node.msg_outbound.queue ++ genesis env node now ∷ []
                else node.msg_outbound.queue)))
unfolding dial_other_nodes
dial_other_nodes-begins env dials node first now h room = (
  λ no. ground (arith, no, dial_all-all dials node.node_table),
  λ yes.
      let (queue, sends, e) = send_genesis_msg_if_primary-begins env node first now h room in
      (
        record (in_view_0 node first) { msg_outbound = record node.msg_outbound { queue = queue } },
        ground (arith, yes, dial_all-all dials node.node_table, sends),
        refl,
        refl,
        e,
      ),
)
