-- ===== src/State/Equivocation.antt =====
-- Prepare (pbft/consensus/pbft_impl.go) at more than one proposal for a sequence number.
use pa_bft.Base.{ℕ, ◌≡◌, refl, String, Option, none, some, List, [], ◌∷◌, map, arith}
use pa_bft.Message.{PrepareMsg, RequestMsg, VoteMsg, vote}
use pa_bft.State.{State, prepare}

-- Proposals for one view.
abbrev pub AllInView : ℕ → List (PrepareMsg × RequestMsg) → Type 0
AllInView view_id [] = Unit {0}
AllInView view_id ((pm, rm) ∷ rest) = (pm.view_id ≡ view_id) × AllInView view_id rest

-- A vote as it counts: its type and its proposal.
abbrev pub choice : VoteMsg → Option PrepareMsg
choice v = elim v.msg_type [ vote ↦ v.prepare_msg | _ ↦ none ]

module _ (digest : Option RequestMsg → Option String) where
  -- Proposals that come one after another, and the votes for them.
  unfoldable pub prepare_all : List (PrepareMsg × RequestMsg) → State → State × List VoteMsg
  prepare_all [] s = (s, [])
  prepare_all ((pm, rm) ∷ rest) s =
      let r = prepare digest s pm (some rm) in
      let (s', votes) = prepare_all rest r.0 in (s', r.1 ∷ votes)

  prepare-choice :
      (s : State) (pm : PrepareMsg) (rm : RequestMsg)
      → ((r : Option RequestMsg) → (d : String) × (digest r ≡ some d))
      → pm.view_id ≡ s.view_id
      → (choice (prepare digest s pm (some rm)).1 ≡ some pm)
        × ((prepare digest s pm (some rm)).0.view_id ≡ s.view_id)
  unfolding prepare
  prepare-choice s pm rm total e =
      let (d, at) = total s.msg_logs.req_msg in (ground (arith, at, e), ground (arith, at, e))

  -- A node votes VOTE for every proposal of its view, however many come for the same sequence number
  -- and whatever they say, where the digest never fails: it does not remember that it has voted.
  pub prepare_all-votes_each :
      (ps : List (PrepareMsg × RequestMsg)) (s : State)
      → ((r : Option RequestMsg) → (d : String) × (digest r ≡ some d))
      → AllInView s.view_id ps
      → map choice (prepare_all ps s).1 ≡ map (λ (p : PrepareMsg × RequestMsg). some p.0) ps
  unfolding prepare_all
  prepare_all-votes_each [] s total all = refl
  prepare_all-votes_each ((pm, rm) ∷ rest) s total all =
      let s' = (prepare digest s pm (some rm)).0 in
      let (chosen, view) = prepare-choice s pm rm total all.0 in
      let more = prepare_all-votes_each rest s' total (rw view all.1) in rw (chosen, more) refl
