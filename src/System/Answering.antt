-- ===== src/System/Answering.antt =====
-- The handlers of a thread (pbft/network/node.go) keep what the channels and threads of the node hold.
use mathlib.Core.Path.{subst}
use pa_bft.Base.{string_key, int64_key, ℕ, ◌≡◌, ◌==◌, String, Option, some, add64, length}
use pa_bft.Base.Map.{lookup}
use pa_bft.Base.Reach.{Holds, Holds-ok, Holds-bind, Holds-any, Holds-deref, Holds-if, Holds-elim}
use pa_bft.Message.{
  PrepareMsg, ReqPrepareMsgs, VoteMsg, VoteRef, VoteMsgs, CollateMsg, MsgType, vote, reject,
  committed, uncommitted, nullmsg, unknown,
}
use pa_bft.State.{State, prepare}
use pa_bft.State.Voting.{vote as vote_on}
use pa_bft.State.Collating.{collate, fill_hole_vote_msgs}
use pa_bft.State.Access.{set_receive_prepare_time}
use pa_bft.Node.{Node, votes, collates}
use pa_bft.Node.Threads.{Env}
use pa_bft.Node.Handlers.{
  committed_at, prepared_at, execute_proposal, follow_vote, get_prepare, on_vote_answer, get_vote,
  execute_if_uncommitted, execute_if_prepared, on_collate_answer, get_collate_as,
}
use pa_bft.System.Mail.{IfSome, IsVoteFor, AllVotes, IsThread, IsHeard}
use pa_bft.System.Hearing.{
  broadcast-IsHeard, report-IsHeard, execute-IsHeard, start_timer-IsThread, stop_timer-IsThread,
  start_thread_if_not_exists-IsHeard, broad_cast_next_prepare_msg_if_primary-IsHeard,
  mark_prepared-IsHeard,
}
use pa_bft.System.Counting.{prepare-IsThread, vote-IsThread, collate-IsThread}

-- What a `range` yields first stands in the map.
abbrev pub IsRange : (VoteMsgs → Option (Option VoteRef)) → Type 0
IsRange first =
    (m : VoteMsgs) (v : Option VoteRef) → first m ≡ some v → (id : String) × (lookup id m ≡ some v)

module _ (P : PrepareMsg → Type 0) (env : Env) (range : IsRange env.first) where
  -- A handler leaves the node and the thread as they should be.
  abbrev pub Kept : ℕ → Node × State → Type 0
  Kept seq r = IsHeard P r.0 × IsThread P seq r.1

  pub execute_proposal-IsHeard :
      (node : Node) (seq : ℕ) (s : State) (received : VoteMsgs)
      → IsHeard P node
      → IsThread P seq s
      → AllVotes P received
      → Holds (execute_proposal env node s received) (IsHeard P)
  unfolding execute_proposal
  execute_proposal-IsHeard node seq s received h t all =
      Holds-elim s.msg_logs.prepare_msg
        (λ e.
          Holds-elim (env.first received) (λ none_there. Holds-ok h)
            (λ v found. Holds-bind (Holds-deref v) (λ r got there.
              let (id, at) = range received v found in
              execute-IsHeard P node r.msg.prepare_msg h
                (subst (IfSome (IsVoteFor P)) there (all id v at)))))
        (λ p e.
          execute-IsHeard P node (some p) h
            (subst (IfSome (λ q. (q.sequence_id ≡ seq) × P q)) e t.proposal).1)

  follow_vote-Kept :
      (node : Node) (seq : ℕ) (s : State) (p : PrepareMsg) (v : VoteMsg) (now : ℕ)
      → IsHeard P node
      → IsThread P seq s
      → P p
      → Holds (follow_vote env node s p v now) (Kept seq)
  unfolding follow_vote
  follow_vote-Kept node seq s p v now h t hp =
      Holds-bind
        (broad_cast_next_prepare_msg_if_primary-IsHeard P env node (add64 p.sequence_id 1) now h)
        λ next e1 h1. Holds-bind (mark_prepared-IsHeard P next p.sequence_id h1) λ marked e2 h2.
          Holds-bind (start_thread_if_not_exists-IsHeard P marked (add64 p.sequence_id 1) h2)
            λ r e3 h3.
              Holds-bind
                (broadcast-IsHeard P r.0 (votes (record v { node_id = node.my_info.node_id }))
                  "/vote" h3.0)
                λ voted e4 h4.
                  Holds-bind (Holds-any (committed_at voted p.sequence_id)) λ done e5 u.
                    Holds-bind (stop_timer-IsThread P seq s "Prepare" t) λ stopped e6 t1.
                      Holds-if (done == 1)
                        (λ z.
                          Holds-bind (execute-IsHeard P voted (some p) h4 hp)
                            λ executed e7 h5. Holds-ok (h5, t1))
                        (λ z.
                          Holds-bind (start_timer-IsThread P seq stopped "Vote" t1)
                            λ started e7 t2. Holds-ok (h4, t2))

  pub get_prepare-Kept :
      (node : Node) (seq : ℕ) (s : State) (msgs : ReqPrepareMsgs) (now : ℕ)
      → IsHeard P node
      → IsThread P seq s
      → msgs.prepare_msg.sequence_id ≡ seq
      → P msgs.prepare_msg
      → Holds (get_prepare env node s msgs now) (Kept seq)
  unfolding get_prepare
  get_prepare-Kept node seq s msgs now h t e hp =
      let pm = msgs.prepare_msg in
      let r = prepare env.digest (set_receive_prepare_time s now) pm msgs.request_msg in
      let t1 =
        prepare-IsThread P env.digest seq (set_receive_prepare_time s now) pm msgs.request_msg t e
          hp in
      Holds-bind (report-IsHeard P node r.2 h) λ reported e1 h1.
        Holds-if (r.1.sequence_id == 0) (λ z. Holds-ok (h1, t1))
          (λ z. follow_vote-Kept reported seq r.0 pm r.1 now h1 t1 hp)

  on_vote_answer-Kept :
      (t : MsgType) (node : Node) (seq : ℕ) (s : State) (answer : CollateMsg)
      → IsHeard P node
      → IsThread P seq s
      → AllVotes P answer.received_vote_msg
      → Holds (on_vote_answer t env node s answer) (Kept seq)
  unfolding on_vote_answer
  on_vote_answer-Kept committed node seq s answer h t all =
      Holds-bind (execute_proposal-IsHeard node seq s answer.received_vote_msg h t all)
        λ executed e1 h1.
          Holds-bind
            (broadcast-IsHeard P executed
              (collates (record answer { node_id = node.my_info.node_id })) "/collate" h1)
            λ collated e2 h2. Holds-bind (stop_timer-IsThread P seq s "Vote" t) λ stopped e3 t1.
              Holds-bind (start_timer-IsThread P seq stopped "Collate" t1)
                λ started e4 t2. Holds-ok (h2, t2)
  on_vote_answer-Kept uncommitted node seq s answer h t all =
      Holds-bind (stop_timer-IsThread P seq s "Vote" t) λ stopped e1 t1.
        Holds-bind (start_timer-IsThread P seq stopped "Collate" t1) λ started e2 t2.
          Holds-bind
            (broadcast-IsHeard P node (collates (record answer { node_id = node.my_info.node_id }))
              "/collate" h)
            λ collated e3 h1. Holds-ok (h1, t2)
  on_vote_answer-Kept vote node seq s answer h t all = Holds-ok (h, t)
  on_vote_answer-Kept reject node seq s answer h t all = Holds-ok (h, t)
  on_vote_answer-Kept nullmsg node seq s answer h t all = Holds-ok (h, t)
  on_vote_answer-Kept (unknown n) node seq s answer h t all = Holds-ok (h, t)

  pub get_vote-Kept :
      (node : Node) (seq : ℕ) (s : State) (r : VoteRef)
      → IsHeard P node
      → IsThread P seq s
      → IsVoteFor P r
      → Holds (get_vote env node s r) (Kept seq)
  unfolding get_vote
  get_vote-Kept node seq s r h t hr =
      let x = vote_on s (some r) (length node.node_table) in
      let (t1, all) = vote-IsThread P seq s r (length node.node_table) t hr in
      Holds-bind (report-IsHeard P node x.2 h) λ reported e h1.
        Holds-if (x.1.sequence_id == 0) (λ z. Holds-ok (h1, t1))
          (λ z. on_vote_answer-Kept x.1.msg_type reported seq x.0 x.1 h1 t1 all)

  execute_if_uncommitted-Kept :
      (node : Node) (seq : ℕ) (s : State) (answer : CollateMsg)
      → IsHeard P node
      → IsThread P seq s
      → AllVotes P answer.received_vote_msg
      → Holds (execute_if_uncommitted env node s answer) (Kept seq)
  unfolding execute_if_uncommitted
  execute_if_uncommitted-Kept node seq s answer h t all =
      Holds-bind (Holds-any (committed_at node answer.sequence_id)) λ done e u.
        Holds-if (done == 0)
          (λ z.
            Holds-bind (execute_proposal-IsHeard node seq s answer.received_vote_msg h t all)
              λ executed e1 h1.
                Holds-bind (stop_timer-IsThread P seq s "Collate" t)
                  λ stopped e2 t1. Holds-ok (h1, t1))
          (λ z. Holds-ok (h, t))

  execute_if_prepared-Kept :
      (node : Node) (seq : ℕ) (s : State) (answer : CollateMsg)
      → IsHeard P node
      → IsThread P seq s
      → AllVotes P answer.received_vote_msg
      → Holds (execute_if_prepared env node s answer) (Kept seq)
  unfolding execute_if_prepared
  execute_if_prepared-Kept node seq s answer h t all =
      Holds-bind (Holds-any (prepared_at node answer.sequence_id)) λ ready e u.
        Holds-if (ready == 1) (λ z. execute_if_uncommitted-Kept node seq s answer h t all)
          (λ z. Holds-ok (h, t))

  on_collate_answer-Kept :
      (t : MsgType) (node : Node) (seq : ℕ) (s : State) (answer : CollateMsg)
      → IsHeard P node
      → IsThread P seq s
      → AllVotes P answer.received_vote_msg
      → Holds (on_collate_answer t env node s answer) (Kept seq)
  unfolding on_collate_answer
  on_collate_answer-Kept committed node seq s answer h t all =
      execute_if_prepared-Kept node seq s answer h t all
  on_collate_answer-Kept uncommitted node seq s answer h t all = Holds-ok (h, t)
  on_collate_answer-Kept vote node seq s answer h t all = Holds-ok (h, t)
  on_collate_answer-Kept reject node seq s answer h t all = Holds-ok (h, t)
  on_collate_answer-Kept nullmsg node seq s answer h t all = Holds-ok (h, t)
  on_collate_answer-Kept (unknown n) node seq s answer h t all = Holds-ok (h, t)

  pub get_collate_as-Kept :
      (t : MsgType) (node : Node) (seq : ℕ) (s : State) (c : CollateMsg)
      → IsHeard P node
      → IsThread P seq s
      → Holds (get_collate_as t env node s c) (Kept seq)
  unfolding get_collate_as
  get_collate_as-Kept uncommitted node seq s c h t =
      let x = collate (fill_hole_vote_msgs s c) c in
      let (t1, all) = collate-IsThread P seq s c t in
      Holds-bind (report-IsHeard P node x.2 h) λ reported e h1.
        Holds-if (x.1.sequence_id == 0) (λ z. Holds-ok (h1, t1))
          (λ z. on_collate_answer-Kept x.1.msg_type reported seq x.0 x.1 h1 t1 all)
  get_collate_as-Kept committed node seq s c h t =
      let x = collate (fill_hole_vote_msgs s c) c in
      let (t1, all) = collate-IsThread P seq s c t in
      Holds-bind (report-IsHeard P node x.2 h)
        λ reported e h1. execute_if_prepared-Kept reported seq x.0 x.1 h1 t1 all
  get_collate_as-Kept vote node seq s c h t = Holds-ok (h, t)
  get_collate_as-Kept reject node seq s c h t = Holds-ok (h, t)
  get_collate_as-Kept nullmsg node seq s c h t = Holds-ok (h, t)
  get_collate_as-Kept (unknown n) node seq s c h t = Holds-ok (h, t)
