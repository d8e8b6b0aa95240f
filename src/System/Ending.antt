-- ===== src/System/Ending.antt =====
-- The messages and the timers of a thread, and the executor (pbft/network/node.go), keep what the
-- channels, the threads and the log of the node hold.
use pa_bft.Base.{string_key, int64_key, ℕ, ◌≡◌, ◌==◌, refl, none, false, length}
use pa_bft.Base.Reach.{Holds, Holds-ok, Holds-bind, Holds-any, Holds-if}
use pa_bft.Message.{
  Message, PrepareMsg, CollateMsg, MsgType, req_prepare, voted, collated, view_change, new_view,
  vote, reject, committed, uncommitted, nullmsg, unknown,
}
use pa_bft.State.{State, prepare}
use pa_bft.State.Voting.{vote_aq}
use pa_bft.State.Collating.{collate_aq}
use pa_bft.Node.{Node, votes, collates}
use pa_bft.Node.Threads.{Env}
use pa_bft.Node.Handlers.{committed_at, get_collate}
use pa_bft.Node.Expiry.{
  handle, expire_prepare, expire_vote, expire_collate, commit_aq, on_vote_aq, on_collate_aq,
  null_proposal,
}
use pa_bft.System.{changes_view}
use pa_bft.System.Mail.{number_of, Carries, AllVotes, IsThread, IsHeard}
use pa_bft.System.Hearing.{broadcast-IsHeard, start_timer-IsThread, mark_prepared-IsHeard}
use pa_bft.System.Counting.{prepare-IsThread}
use pa_bft.System.Answering.{
  IsRange, Kept, execute_proposal-IsHeard, get_prepare-Kept, get_vote-Kept, get_collate_as-Kept,
}

module _ (P : PrepareMsg → Type 0) (env : Env) (range : IsRange env.first) where
  pub handle-Kept :
      (node : Node) (seq : ℕ) (s : State) (msg : Message) (addr now : ℕ)
      → changes_view msg ≡ false
      → IsHeard P node
      → IsThread P seq s
      → number_of msg ≡ seq
      → Carries P msg
      → Holds (handle env node s msg addr now) (λ r. IsHeard P r.0 × IsThread P seq r.1)
  unfolding handle get_collate
  handle-Kept node seq s (req_prepare msgs) addr now v h t e c =
      Holds-bind (get_prepare-Kept P env range node seq s msgs now h t e c) λ r e1 k. Holds-ok k
  handle-Kept node seq s (voted r) addr now v h t e c =
      Holds-bind (get_vote-Kept P env range node seq s r h t c) λ r e1 k. Holds-ok k
  handle-Kept node seq s (collated m) addr now v h t e c =
      Holds-bind (get_collate_as-Kept P env range m.msg_type node seq s m h t) λ r e1 k. Holds-ok k
  handle-Kept node seq s (view_change m) addr now v h t e c = cc
  handle-Kept node seq s (new_view m) addr now v h t e c = cc

  pub expire_prepare-Kept :
      (node : Node) (seq : ℕ) (s : State)
      → IsHeard P node
      → IsThread P seq s
      → P (null_proposal seq)
      → Holds (expire_prepare env node s seq) (Kept P env range seq)
  unfolding expire_prepare
  expire_prepare-Kept node seq s h t hp =
      Holds-bind (start_timer-IsThread P seq s "Vote" t) λ started e1 t1.
        let r = prepare env.digest started (null_proposal seq) none in
        Holds-bind (mark_prepared-IsHeard P node seq h) λ marked e2 h1.
          Holds-bind
            (broadcast-IsHeard P marked (votes (record r.1 { node_id = node.my_info.node_id }))
              "/vote" h1)
            λ done e3 h2.
              Holds-ok
                (h2, prepare-IsThread P env.digest seq started (null_proposal seq) none t1 refl hp)

  commit_aq-IsHeard :
      (node : Node) (seq : ℕ) (s : State) (c : CollateMsg)
      → IsHeard P node
      → IsThread P seq s
      → AllVotes P c.received_vote_msg
      → Holds (commit_aq env node s c) (IsHeard P)
  unfolding commit_aq
  commit_aq-IsHeard node seq s c h t all =
      Holds-bind (Holds-any (committed_at node c.sequence_id)) λ done e u.
        Holds-if (done == 0)
          (λ z.
            Holds-bind (execute_proposal-IsHeard P env range node seq s c.received_vote_msg h t all)
              λ executed e1 h1. broadcast-IsHeard P executed (collates c) "/collate" h1)
          (λ z. Holds-ok h)

  on_vote_aq-IsHeard :
      (t : MsgType) (node : Node) (seq : ℕ) (s : State) (c : CollateMsg)
      → IsHeard P node
      → IsThread P seq s
      → AllVotes P c.received_vote_msg
      → Holds (on_vote_aq t env node s c) (IsHeard P)
  unfolding on_vote_aq
  on_vote_aq-IsHeard uncommitted node seq s c h t all =
      broadcast-IsHeard P node (collates c) "/collate" h
  on_vote_aq-IsHeard committed node seq s c h t all = commit_aq-IsHeard node seq s c h t all
  on_vote_aq-IsHeard vote node seq s c h t all = Holds-ok h
  on_vote_aq-IsHeard reject node seq s c h t all = Holds-ok h
  on_vote_aq-IsHeard nullmsg node seq s c h t all = Holds-ok h
  on_vote_aq-IsHeard (unknown n) node seq s c h t all = Holds-ok h

  pub expire_vote-IsHeard :
      (node : Node) (seq : ℕ) (s : State)
      → IsHeard P node
      → IsThread P seq s
      → Holds (expire_vote env node s) (IsHeard P)
  unfolding expire_vote vote_aq
  expire_vote-IsHeard node seq s h t =
      let c = (vote_aq s (length node.node_table)).0 in
      on_vote_aq-IsHeard c.msg_type node seq s (record c { node_id = node.my_info.node_id }) h t
        t.votes

  on_collate_aq-IsHeard :
      (t : MsgType) (node : Node) (seq : ℕ) (s : State) (c : CollateMsg)
      → IsHeard P node
      → IsThread P seq s
      → AllVotes P c.received_vote_msg
      → Holds (on_collate_aq t env node s c) (IsHeard P)
  unfolding on_collate_aq
  on_collate_aq-IsHeard committed node seq s c h t all = commit_aq-IsHeard node seq s c h t all
  on_collate_aq-IsHeard uncommitted node seq s c h t all = Holds-ok h
  on_collate_aq-IsHeard vote node seq s c h t all = Holds-ok h
  on_collate_aq-IsHeard reject node seq s c h t all = Holds-ok h
  on_collate_aq-IsHeard nullmsg node seq s c h t all = Holds-ok h
  on_collate_aq-IsHeard (unknown n) node seq s c h t all = Holds-ok h

  pub expire_collate-IsHeard :
      (node : Node) (seq : ℕ) (s : State)
      → IsHeard P node
      → IsThread P seq s
      → Holds (expire_collate env node s) (IsHeard P)
  unfolding expire_collate collate_aq
  expire_collate-IsHeard node seq s h t =
      let c = (collate_aq s (length node.node_table)).0 in
      on_collate_aq-IsHeard c.msg_type node seq s (record c { node_id = node.my_info.node_id }) h t
        t.votes
