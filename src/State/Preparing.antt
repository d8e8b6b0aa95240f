-- ===== src/State/Preparing.antt =====
-- Prepare (pbft/consensus/pbft_impl.go): the vote of this node.
use pa_bft.Base.{◌≡◌, ◌≢◌, ◌↔◌, ◌⊎◌, refl, String, Option, none, some, inl, arith}
use pa_bft.Message.{PrepareMsg, RequestMsg, vote, reject}
use pa_bft.State.{State, digest_failed, prepare, set_bizantine}

module _ (digest : Option RequestMsg → Option String) where
  -- A node votes VOTE for a request exactly when the proposal is for its view, and REJECT exactly when
  -- it is for another view; a proposal for another sequence number moves the node there and is no
  -- reason to reject.
  pub prepare_votes_iff :
      (s : State) (pm : PrepareMsg) (rm : RequestMsg) (d : String)
      → digest s.msg_logs.req_msg ≡ some d
      → (((prepare digest s pm (some rm)).1.msg_type ≡ vote) ↔ (s.view_id ≡ pm.view_id))
        × (((prepare digest s pm (some rm)).1.msg_type ≡ reject) ↔ (s.view_id ≢ pm.view_id))
        × ((prepare digest s pm (some rm)).0.sequence_id ≡ pm.sequence_id)
  unfolding prepare
  prepare_votes_iff s pm rm d e = ground arith

  -- The digest that a node votes for is that of the request it held before: whatever the proposals, their
  -- requests and the digests that they state, the vote for the first one has the digest of the request
  -- in the log, and the vote for the next one that of the request that came with the first.
  pub prepare_ignores_request :
      (s : State) (pm pm' : PrepareMsg) (rm rm' : RequestMsg) (d d' : String)
      → digest s.msg_logs.req_msg ≡ some d
      → digest (some rm) ≡ some d'
      → let first = prepare digest s pm (some rm) in
        (first.1.digest ≡ d) × ((prepare digest first.0 pm' (some rm')).1.digest ≡ d')
  unfolding prepare set_bizantine
  prepare_ignores_request s pm pm' rm rm' d d' e e' = (ground arith, ground arith)

  -- What is logged is what is voted, on every branch: the vote that is returned is the one in the log,
  -- with the logged digest, the proposal and the state's view and sequence number; where the digest
  -- fails, the state is as it was and the zero vote comes with the error.
  pub prepare_logs_vote :
      (s : State) (pm : PrepareMsg) (rm : Option RequestMsg)
      → let (s', v, err) = prepare digest s pm rm in
        ((err ≡ none)
          × (s'.msg_logs.sent_vote_msg ≡ some v)
          × (s'.msg_logs.req_msg ≡ rm)
          × (s'.msg_logs.prepare_msg ≡ some pm)
          × (v.prepare_msg ≡ some pm)
          × (v.digest ≡ s'.msg_logs.digest)
          × (v.view_id ≡ s'.view_id)
          × (v.sequence_id ≡ s'.sequence_id))
        ⊎ ((err ≡ some digest_failed) × (s' ≡ s) × (v.sequence_id ≡ 0))
  unfolding prepare
  prepare_logs_vote s pm none = inl (refl, refl, refl, refl, refl, refl, refl, refl)
  prepare_logs_vote s pm (some rm) = ground arith
