-- ===== src/System/Leaving.antt =====
-- What the messages and timers of a thread, the executor and the start of a node (pbft/network/node.go,
-- pbft/network/proxy_server.go) put on the way out.
use pa_bft.Base.{
  string_key, int64_key, ℕ, zero, suc, ◌≡◌, ◌∙◌, ◌==◌, refl, Option, none, some, false, add64,
  length, arith,
}
use pa_bft.Base.Map.{lookup, insert, delete}
use pa_bft.Base.Reach.{
  Holds, Holds-ok, Holds-bind, Holds-any, Holds-from, Holds-if, Holds-map, Holds-elim, Holds-fuel,
}
use pa_bft.Message.{
  Message, PrepareMsg, VoteRef, VoteMsgs, CollateMsg, MsgType, req_prepare, voted, collated,
  view_change, new_view, vote, reject, committed, uncommitted, nullmsg, unknown,
}
use pa_bft.State.{State, prepare}
use pa_bft.State.Voting.{vote as vote_on, vote_aq}
use pa_bft.State.Collating.{collate_aq}
use pa_bft.Node.{Node, votes, collates}
use pa_bft.Node.Primary.{update_view_id, update_epoch_id}
use pa_bft.Node.Threads.{Env, report, execute, start_timer, stop_timer}
use pa_bft.Node.Handlers.{
  committed_at, mark_prepared, execute_proposal, on_vote_answer, get_vote, get_collate,
}
use pa_bft.Node.Expiry.{
  handle, expire_prepare, expire_vote, expire_collate, commit_aq, on_vote_aq, on_collate_aq,
  null_proposal,
}
use pa_bft.Node.Execute.{Pairs, execute_one, execute_loop, execute_msg, last_sequence_id}
use pa_bft.System.{changes_view}
use pa_bft.System.Mail.{Carries}
use pa_bft.System.Outgoing.{
  IsSending, IsMade, broadcast-IsSending, same-IsSending, prepare-vote, get_prepare-IsSending,
}

module _ (Q : PrepareMsg → Type 0) (env : Env) where
  execute_proposal-IsSending :
      (node : Node) (s : State) (received : VoteMsgs)
      → IsSending Q node
      → Holds (execute_proposal env node s received) (IsSending Q)
  execute_proposal-IsSending node s received h =
      Holds-from (execute_proposal env node s received) λ executed e.
        same-IsSending Q node executed h (unfold execute_proposal execute in ground (arith, e))

  on_vote_answer-IsSending :
      (t : MsgType) (node : Node) (s : State) (answer : CollateMsg)
      → IsSending Q node
      → Holds (on_vote_answer t env node s answer) (λ r. IsSending Q r.0)
  unfolding on_vote_answer
  on_vote_answer-IsSending committed node s answer h =
      Holds-bind (execute_proposal-IsSending node s answer.received_vote_msg h) λ executed e1 h1.
        Holds-bind
          (broadcast-IsSending Q executed
            (collates (record answer { node_id = node.my_info.node_id })) "/collate" h1 refl)
          λ collated e2 h2. Holds-bind (Holds-any (stop_timer s "Vote")) λ stopped e3 u.
            Holds-bind (Holds-any (start_timer stopped "Collate")) λ started e4 v. Holds-ok h2
  on_vote_answer-IsSending uncommitted node s answer h =
      Holds-bind (Holds-any (stop_timer s "Vote")) λ stopped e1 u.
        Holds-bind (Holds-any (start_timer stopped "Collate")) λ started e2 v.
          Holds-bind
            (broadcast-IsSending Q node
              (collates (record answer { node_id = node.my_info.node_id })) "/collate" h refl)
            λ collated e3 h1. Holds-ok h1
  on_vote_answer-IsSending vote node s answer h = Holds-ok h
  on_vote_answer-IsSending reject node s answer h = Holds-ok h
  on_vote_answer-IsSending nullmsg node s answer h = Holds-ok h
  on_vote_answer-IsSending (unknown n) node s answer h = Holds-ok h

  get_vote-IsSending :
      (node : Node) (s : State) (r : VoteRef)
      → IsSending Q node
      → Holds (get_vote env node s r) (λ x. IsSending Q x.0)
  unfolding get_vote
  get_vote-IsSending node s r h =
      let x = vote_on s (some r) (length node.node_table) in
      Holds-bind
        (Holds-from (report node x.2)
          λ reported e. same-IsSending Q node reported h (unfold report in ground (arith, e)))
        λ reported e h1.
          Holds-if (x.1.sequence_id == 0) (λ z. Holds-ok h1)
            (λ z. on_vote_answer-IsSending x.1.msg_type reported x.0 x.1 h1)

  pub handle-IsSending :
      (node : Node) (s : State) (msg : Message) (addr now : ℕ)
      → changes_view msg ≡ false
      → IsMade Q env
      → IsSending Q node
      → Carries Q msg
      → Holds (handle env node s msg addr now) (λ r. IsSending Q r.0)
  unfolding handle
  handle-IsSending node s (req_prepare msgs) addr now v made h c =
      Holds-bind (get_prepare-IsSending Q env node s msgs now made h c) λ r e k. Holds-ok k
  handle-IsSending node s (voted r) addr now v made h c =
      Holds-bind (get_vote-IsSending node s r h) λ x e k. Holds-ok k
  handle-IsSending node s (collated m) addr now v made h c =
      Holds-bind
        (Holds-from {q = λ r. IsSending Q r.0} (get_collate env node s m) λ r e.
          same-IsSending Q node r.0 h
            (unfold get_collate report execute_proposal execute stop_timer in ground (arith, e)))
        λ r e k. Holds-ok k
  handle-IsSending node s (view_change m) addr now v made h c = cc
  handle-IsSending node s (new_view m) addr now v made h c = cc

  pub expire_prepare-IsSending :
      (node : Node) (seq : ℕ) (s : State)
      → IsSending Q node
      → Q (null_proposal seq)
      → Holds (expire_prepare env node s seq) (λ r. IsSending Q r.0)
  unfolding expire_prepare
  expire_prepare-IsSending node seq s h q =
      Holds-bind (Holds-any (start_timer s "Vote")) λ started e1 u.
        let r = prepare env.digest started (null_proposal seq) none in
        Holds-bind
          (Holds-from (mark_prepared node seq)
            λ marked e. same-IsSending Q node marked h (unfold mark_prepared in ground (arith, e)))
          λ marked e2 h1.
            Holds-bind
              (broadcast-IsSending Q marked (votes (record r.1 { node_id = node.my_info.node_id }))
                "/vote" h1 (prepare-vote Q env.digest started (null_proposal seq) none q, refl))
              λ done e3 h2. Holds-ok h2

  commit_aq-IsSending :
      (node : Node) (s : State) (c : CollateMsg)
      → IsSending Q node
      → Holds (commit_aq env node s c) (IsSending Q)
  unfolding commit_aq
  commit_aq-IsSending node s c h =
      Holds-bind (Holds-any (committed_at node c.sequence_id)) λ done e u.
        Holds-if (done == 0)
          (λ z.
            Holds-bind (execute_proposal-IsSending node s c.received_vote_msg h)
              λ executed e1 h1. broadcast-IsSending Q executed (collates c) "/collate" h1 refl)
          (λ z. Holds-ok h)

  on_vote_aq-IsSending :
      (t : MsgType) (node : Node) (s : State) (c : CollateMsg)
      → IsSending Q node
      → Holds (on_vote_aq t env node s c) (IsSending Q)
  unfolding on_vote_aq
  on_vote_aq-IsSending uncommitted node s c h =
      broadcast-IsSending Q node (collates c) "/collate" h refl
  on_vote_aq-IsSending committed node s c h = commit_aq-IsSending node s c h
  on_vote_aq-IsSending vote node s c h = Holds-ok h
  on_vote_aq-IsSending reject node s c h = Holds-ok h
  on_vote_aq-IsSending nullmsg node s c h = Holds-ok h
  on_vote_aq-IsSending (unknown n) node s c h = Holds-ok h

  pub expire_vote-IsSending :
      (node : Node) (s : State) → IsSending Q node → Holds (expire_vote env node s) (IsSending Q)
  unfolding expire_vote
  expire_vote-IsSending node s h =
      let c = (vote_aq s (length node.node_table)).0 in
      on_vote_aq-IsSending c.msg_type node s (record c { node_id = node.my_info.node_id }) h

  on_collate_aq-IsSending :
      (t : MsgType) (node : Node) (s : State) (c : CollateMsg)
      → IsSending Q node
      → Holds (on_collate_aq t env node s c) (IsSending Q)
  unfolding on_collate_aq
  on_collate_aq-IsSending committed node s c h = commit_aq-IsSending node s c h
  on_collate_aq-IsSending uncommitted node s c h = Holds-ok h
  on_collate_aq-IsSending vote node s c h = Holds-ok h
  on_collate_aq-IsSending reject node s c h = Holds-ok h
  on_collate_aq-IsSending nullmsg node s c h = Holds-ok h
  on_collate_aq-IsSending (unknown n) node s c h = Holds-ok h

  pub expire_collate-IsSending :
      (node : Node) (s : State) → IsSending Q node → Holds (expire_collate env node s) (IsSending Q)
  unfolding expire_collate
  expire_collate-IsSending node s h =
      let c = (collate_aq s (length node.node_table)).0 in
      on_collate_aq-IsSending c.msg_type node s (record c { node_id = node.my_info.node_id }) h

execute_loop-outbound :
    (fuel : ℕ) (node : Node) (pairs : Pairs)
    → Holds (execute_loop fuel node pairs) (λ r. r.0.msg_outbound ≡ node.msg_outbound)
unfolding execute_loop
execute_loop-outbound zero node pairs = Holds-fuel
execute_loop-outbound (suc fuel) node pairs =
    Holds-bind (Holds-any (last_sequence_id node)) λ last e u.
      Holds-elim (lookup (add64 last 1) pairs) (λ none_there. Holds-ok refl)
        (λ p there. Holds-bind (Holds-any (execute_one node last p)) λ node1 e1 u1.
          let one : node1.msg_outbound ≡ node.msg_outbound =
            unfold execute_one update_view_id update_epoch_id in ground (arith, e1) in
          Holds-map (execute_loop-outbound fuel node1 (delete (add64 last 1) pairs))
            (λ r same. same ∙ one))

pub execute_msg-outbound :
    (node : Node) (pairs : Pairs) (received : Option PrepareMsg)
    → Holds (execute_msg node pairs received) (λ r. r.0.msg_outbound ≡ node.msg_outbound)
unfolding execute_msg
execute_msg-outbound node pairs none = Holds-from _ λ r e. cc
execute_msg-outbound node pairs (some p) =
    let waits = insert p.sequence_id p pairs in
    execute_loop-outbound (suc (length waits)) node waits
