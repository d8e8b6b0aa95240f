-- ===== src/Server/Entering.antt =====
-- The way of a message from the socket to the thread of its sequence number (receiveLoop of
-- pbft/network/proxy_server.go, dispatchMsg and resolveMsg of pbft/network/node.go).
use pa_bft.Base.{
  refl, ◌==◌, if◌then◌else◌, int64_key, ◌≡◌, ◌≢◌, String, Bool, false, [], ◌∷◌, ◌++◌, arith,
}
use pa_bft.Base.Outcome.{ok}
use pa_bft.Message.{VoteRef, voted}
use pa_bft.Node.{Node, NodeInfo}
use pa_bft.Node.Dispatch.{deliver, dispatch_entrance, resolve_msg}
use pa_bft.Node.Routing.{queue_at, is_dropped, resolve_msg-queues}
use pa_bft.Server.Signing.{SignatureMsg}
use pa_bft.Server.{Wire, deattach_signature_msg, sort_msg, receive, enter, enter_view}

receive-frame :
    (w : Wire) (sender : NodeInfo) (node node' : Node) (message : String)
    → receive w sender node message ≡ ok node'
    → node' ≡ record node {
      msg_entrance = node'.msg_entrance;
      view_msg_entrance = node'.view_msg_entrance;
    }
unfolding receive sort_msg enter enter_view deattach_signature_msg
receive-frame w sender node node' message h = ground arith

receive-voted :
    (w : Wire) (sender : NodeInfo) (node : Node) (message : String) (raw : SignatureMsg)
    (read right : Bool)
    → deattach_signature_msg w sender message ≡ ok (raw, read, right)
    → raw.msg_type ≡ "/vote"
    → let r = w.read_vote raw.marshalled_msg in
      receive w sender node message
      ≡ (if r.msg.sequence_id == 0 then ok node else enter node (voted r))
unfolding receive sort_msg
receive-voted w sender node message raw read right h kind = rw (receive, h) (rw kind refl)

-- A vote whose signature is wrong goes the whole way, if it finds room: it stands at the end of the
-- entrance after it is received, of the delivery after it is dispatched, and of the queue of the thread
-- that counts it after it is resolved, if its sequence number is not 0, no view change is going on,
-- and the node does not drop votes for the sequence number at that time.
pub unverified_vote-queued :
    (w : Wire) (sender : NodeInfo) (node received delivered resolved : Node) (message : String)
    (raw : SignatureMsg) (read : Bool) (r : VoteRef)
    → deattach_signature_msg w sender message ≡ ok (raw, read, false)
    → w.read_vote raw.marshalled_msg ≡ r
    → raw.msg_type ≡ "/vote"
    → r.msg.sequence_id ≢ 0
    → node.is_view_changing ≡ false
    → is_dropped node (voted r) ≡ false
    → receive w sender node message ≡ ok received
    → dispatch_entrance received (voted r) ≡ ok delivered
    → resolve_msg delivered (voted r) ≡ ok resolved
    → (received.msg_entrance.queue ≡ node.msg_entrance.queue ++ voted r ∷ [])
      × (delivered.msg_delivery.queue ≡ node.msg_delivery.queue ++ voted r ∷ [])
      × (queue_at resolved r.msg.sequence_id ≡ queue_at node r.msg.sequence_id ++ voted r ∷ [])
unfolding dispatch_entrance enter deliver
unverified_vote-queued w sender node received delivered resolved message raw read r wrong is kind
      seq idle kept h1 h2 h3 =
    let entered = receive-frame w sender node received message h1 in
    let passed : delivered ≡ record received { msg_delivery = delivered.msg_delivery } =
      ground arith in
    (
      ground (arith, receive-voted w sender node message raw read false wrong kind),
      ground arith,
      ground (arith, resolve_msg-queues delivered resolved (voted r) r.msg.sequence_id h3),
    )
