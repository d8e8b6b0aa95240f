-- ===== src/System/Mail.antt =====
-- What the channels, the threads and the log of a node hold (pbft/network/node.go), when proposals are
-- followed from where they are received.
use mathlib.Core.Path.{subst}
use pa_bft.Base.{int64_key, string_key, ℕ, ◌≡◌, Option, none, some, List, [], ◌∷◌, ◌++◌, arith}
use pa_bft.Base.Map.{Map}
use pa_bft.Base.Values.{AllValues}
use pa_bft.Base.Chan.{Chan, take}
use pa_bft.Message.{
  Message, PrepareMsg, VoteRef, VoteMsgs, req_prepare, voted, collated, view_change, new_view,
}
use pa_bft.State.{State}
use pa_bft.Node.{Node}
use pa_bft.Node.Execute.{Pairs}

abbrev pub All : {A : Type 0} → (A → Type 0) → List A → Type 0
All q [] = Unit {0}
All q (x ∷ xs) = q x × All q xs

pub All-append :
    {A : Type 0} (q : A → Type 0) (xs : List A) (y : A) → All q xs → q y → All q (xs ++ y ∷ [])
All-append q [] y h hy = (hy, tt)
All-append q (x ∷ xs) y h hy = (h.0, All-append q xs y h.1 hy)

pub All-++ : {A : Type 0} (q : A → Type 0) (xs ys : List A) → All q xs → All q ys → All q (xs ++ ys)
All-++ q [] ys h hy = hy
All-++ q (x ∷ xs) ys h hy = (h.0, All-++ q xs ys h.1 hy)

-- One of a list, which may be replaced.
pub All-replace :
    {A : Type 0} (q : A → Type 0) (xs : List A) (y y' : A) (ys : List A)
    → All q (xs ++ y ∷ ys)
    → q y × (q y' → All q (xs ++ y' ∷ ys))
All-replace q [] y y' ys h = (h.0, λ new. (new, h.1))
All-replace q (x ∷ xs) y y' ys h =
    let (one, rest) = All-replace q xs y y' ys h.1 in (one, λ new. (h.0, rest new))

-- What is received was in the channel, and so was the rest.
pub All-take :
    {A : Type 0} (q : A → Type 0) (ch rest : Chan A) (x : A)
    → All q ch.queue
    → take ch ≡ some (x, rest)
    → q x × All q rest.queue
All-take q ch rest x h e = go q ch.cap rest x ch.queue h e
  where
    go :
        {A : Type 0} (q : A → Type 0) (cap : ℕ) (rest : Chan A) (x : A) (xs : List A)
        → All q xs
        → take (record { cap = cap; queue = xs }) ≡ some (x, rest)
        → q x × All q rest.queue
    go q cap rest x [] h e = cc
    go q cap rest x (y ∷ ys) h e =
        let head : y ≡ x = ground (arith, e) in
        let tail : ys ≡ rest.queue = ground (arith, e) in (subst q head h.0, subst (All q) tail h.1)

-- The sequence number that `resolveMsg` reads.
abbrev pub number_of : Message → ℕ
number_of (req_prepare m) = m.prepare_msg.sequence_id
number_of (voted r) = r.msg.sequence_id
number_of (collated c) = c.sequence_id
number_of (view_change m) = m.sequence_id
number_of (new_view m) = m.sequence_id

abbrev pub IfSome : {A : Type 0} → (A → Type 0) → Option A → Type 0
IfSome q none = Unit {0}
IfSome q (some a) = q a

module _ (P : PrepareMsg → Type 0) where
  -- The proposal that a vote carries has the property.
  abbrev pub IsVoteFor : VoteRef → Type 0
  IsVoteFor r = IfSome P r.msg.prepare_msg

  -- The proposals that a message brings have it.
  abbrev pub Carries : Message → Type 0
  Carries (req_prepare m) = P m.prepare_msg
  Carries (voted r) = IsVoteFor r
  Carries _ = Unit {0}

  abbrev pub AllVotes : VoteMsgs → Type 0
  AllVotes m = AllValues (λ id. IfSome IsVoteFor) m

  -- The parts of the thread of sequence number `seq`.
  pub record ThreadHolds (seq number : ℕ) (queue : List Message) (received : Option PrepareMsg)
      (counted : VoteMsgs) : Type 0 where
    pub numbered : number ≡ seq
    pub mail : All (λ m. (number_of m ≡ seq) × Carries m) queue
    pub proposal : IfSome (λ p. (p.sequence_id ≡ seq) × P p) received
    pub votes : AllVotes counted

  abbrev pub IsThread : ℕ → State → Type 0
  IsThread seq s =
      ThreadHolds seq s.sequence_id s.msg_state.queue s.msg_logs.prepare_msg s.msg_logs.vote_msgs

  abbrev pub AllProposals : Pairs → Type 0
  AllProposals m = AllValues (λ k. P) m

  -- The parts of a node.
  pub record NodeHolds (arriving viewing passed : List Message) (decided : List (Option PrepareMsg))
      (states : Map ℕ State) (executed : Map ℕ PrepareMsg) : Type 0 where
    pub entrance : All Carries arriving
    pub views : All Carries viewing
    pub delivery : All Carries passed
    pub execution : All (IfSome P) decided
    pub threads : AllValues IsThread states
    pub log : AllProposals executed

  abbrev pub IsHeard : Node → Type 0
  IsHeard node =
      NodeHolds node.msg_entrance.queue node.view_msg_entrance.queue node.msg_delivery.queue
        node.msg_execution.queue node.states node.committed_msgs
