-- ===== src/System/Counting.antt =====
-- The methods of a state (pbft/consensus/pbft_impl.go) keep what its thread holds.
use pa_bft.Base.{
  ◌∙◌, string_key, int64_key, ℕ, ◌≡◌, ◌⊎◌, inl, inr, String, Option, some, [], ◌∷◌, arith,
}
use pa_bft.Base.Map.{lookup}
use pa_bft.Base.Values.{AllValues-insert}
use pa_bft.Message.{PrepareMsg, RequestMsg, VoteRef, VoteMsgs, CollateMsg}
use pa_bft.State.{State, prepare, verify_msg, set_bizantine}
use pa_bft.State.Voting.{vote, vote_result, record_vote}
use pa_bft.State.Collating.{
  collate, fill_hole_vote_msgs, fill_loop, fill_one, get_vote_msgs, vote_at,
}
use pa_bft.System.Mail.{IsVoteFor, AllVotes, IsThread}

module _ (P : PrepareMsg → Type 0) where
  pub prepare-IsThread :
      (digest : Option RequestMsg → Option String) (seq : ℕ) (s : State) (p : PrepareMsg)
      (r : Option RequestMsg)
      → IsThread P seq s
      → p.sequence_id ≡ seq
      → P p
      → IsThread P seq (prepare digest s p r).0
  prepare-IsThread digest seq s p r t e hp =
      let x = (prepare digest s p r).0 in
      let number : x.sequence_id ≡ seq =
        unfold prepare verify_msg set_bizantine in ground (arith, e, t.numbered) in
      let mail : x.msg_state ≡ s.msg_state =
        unfold prepare verify_msg set_bizantine in ground arith in
      let votes : x.msg_logs.vote_msgs ≡ s.msg_logs.vote_msgs =
        unfold prepare verify_msg set_bizantine in ground arith in
      let proposal : (x.msg_logs.prepare_msg ≡ s.msg_logs.prepare_msg)
          ⊎ (x.msg_logs.prepare_msg ≡ some p) =
        unfold prepare verify_msg set_bizantine in ground arith in
      record {
        numbered = number;
        mail = rw mail t.mail;
        proposal = elim proposal [ inl same ↦ rw same t.proposal | inr new ↦ rw new (e, hp) ];
        votes = rw votes t.votes;
      }

  -- A log of votes with one more vote.
  record_vote-IsThread :
      (seq : ℕ) (s : State) (r : VoteRef)
      → IsThread P seq s
      → IsVoteFor P r
      → IsThread P seq (record_vote s r)
  unfolding record_vote
  record_vote-IsThread seq s r t hr = record {
    numbered = t.numbered;
    mail = t.mail;
    proposal = t.proposal;
    votes = AllValues-insert _ r.msg.node_id (some r) s.msg_logs.vote_msgs t.votes hr;
  }

  none_voted : AllVotes P []
  unfolding lookup
  none_voted id v e = cc

  pub vote-IsThread :
      (seq : ℕ) (s : State) (r : VoteRef) (nodes : ℕ)
      → IsThread P seq s
      → IsVoteFor P r
      → IsThread P seq (vote s (some r) nodes).0
        × AllVotes P (vote s (some r) nodes).1.received_vote_msg
  vote-IsThread seq s r nodes t hr =
      let t' = record_vote-IsThread seq s r t hr in
      let kept : ((vote s (some r) nodes).0 ≡ s) ⊎ ((vote s (some r) nodes).0 ≡ record_vote s r) =
        unfold vote verify_msg set_bizantine in ground arith in
      let told : ((vote s (some r) nodes).1.received_vote_msg ≡ [])
          ⊎ ((vote s (some r) nodes).1.received_vote_msg ≡ (record_vote s r).msg_logs.vote_msgs) =
        unfold vote vote_result verify_msg set_bizantine in ground arith in
      (
        elim kept [ inl e ↦ rw e t | inr e ↦ rw e t' ],
        elim told [ inl e ↦ rw e none_voted | inr e ↦ rw e t'.votes ],
      )

  fill_loop-IsThread :
      (seq : ℕ) (m : VoteMsgs) (c : CollateMsg) (s : State)
      → IsThread P seq s
      → IsThread P seq (fill_loop m c s)
  unfolding fill_loop
  fill_loop-IsThread seq [] c s t = t
  fill_loop-IsThread seq ((id, mine) ∷ rest) c s t =
      fill_loop-IsThread seq rest c (fill_one id mine (vote_at id c.received_vote_msg) s) (
        let same : let s' = fill_one id mine (vote_at id c.received_vote_msg) s in
            s' ≡ record s {
              msg_logs = record s.msg_logs { total_vote_ok_msg = s'.msg_logs.total_vote_ok_msg };
            } =
          unfold fill_one in ground arith in
        rw same t)

  pub collate-IsThread :
      (seq : ℕ) (s : State) (c : CollateMsg)
      → IsThread P seq s
      → let x = collate (fill_hole_vote_msgs s c) c in
        IsThread P seq x.0 × AllVotes P x.1.received_vote_msg
  unfolding fill_hole_vote_msgs
  collate-IsThread seq s c t =
      let s1 = fill_loop (get_vote_msgs s) c s in
      let t1 = fill_loop-IsThread seq (get_vote_msgs s) c s t in
      let x = collate s1 c in
      let kept : (x.0.sequence_id ≡ s1.sequence_id)
          × (x.0.msg_state ≡ s1.msg_state)
          × (x.0.msg_logs.prepare_msg ≡ s1.msg_logs.prepare_msg)
          × (x.0.msg_logs.vote_msgs ≡ s1.msg_logs.vote_msgs) =
        unfold collate verify_msg set_bizantine in
        (ground arith, ground arith, ground arith, ground arith) in
      let told : (x.1.received_vote_msg ≡ []) ⊎ (x.1.received_vote_msg ≡ s1.msg_logs.vote_msgs) =
        unfold collate verify_msg set_bizantine in ground arith in
      (
        record {
          numbered = kept.0 ∙ t1.numbered;
          mail = rw kept.1 t1.mail;
          proposal = rw kept.2 t1.proposal;
          votes = rw kept.3 t1.votes;
        },
        elim told [ inl e ↦ rw e none_voted | inr e ↦ rw e t1.votes ],
      )
