-- ===== src/System/Lasting.antt =====
-- The threads that a view change has dropped (pbft/network/view.go, pbft/network/node.go) bring nothing
-- into their node but what it holds.
use pa_bft.Base.{
  arith, int64_key, ℕ, zero, suc, ◌≡◌, refl, Bool, true, false, Option, none, some, List, [], ◌∷◌,
  add64,
}
use pa_bft.Base.Map.{lookup}
use pa_bft.Base.Chan.{Chan, take}
use pa_bft.Base.Reach.{Holds-returned}
use pa_bft.Message.{Message, PrepareMsg, ViewChangeMsg, NewViewMsg, view_change, new_view}
use pa_bft.State.{State}
use pa_bft.ViewChange.{view_change as view_change_on}
use pa_bft.Node.{Node}
use pa_bft.Node.Threads.{Env}
use pa_bft.Node.Filling.{le64, gap}
use pa_bft.Node.ViewChanging.{vc_state_for}
use pa_bft.Server.{Wire}
use pa_bft.System.{System}
use pa_bft.System.Viewing.{
  WholeStep, inner, dispatches_view, changes_view_at, installs_view, ends_view_change,
}
use pa_bft.System.Mail.{All, All-take, IsThread, IsHeard}
use pa_bft.System.Answering.{IsRange}
use pa_bft.System.Ending.{
  handle-Kept, expire_prepare-Kept, expire_vote-IsHeard, expire_collate-IsHeard,
}
use pa_bft.System.Arriving.{Signal-IsThread}
use pa_bft.System.Cutting.{start_view_change-IsHeard, get_view_change-IsHeard}
use pa_bft.System.Renewing.{IsOfMakeUp, get_new_view-IsHeard, taken-IsHeard}
use pa_bft.System.Outgoing.{IsSending, IsMade, same-IsSending}
use pa_bft.System.Hearing.{late_mark-IsHeard}
use pa_bft.Node.Handlers.{late_mark}
use pa_bft.System.Leaving.{
  handle-IsSending, expire_prepare-IsSending, expire_vote-IsSending, expire_collate-IsSending,
}
use pa_bft.System.Passing.{
  start_view_change-IsSending, get_view_change-IsSending, get_new_view-IsSending,
}
use pa_bft.System.Validity.{IsValid}
use pa_bft.System.Lingering.{
  Lingers, told, threads_from, threads_dropped, threads_dropped_by, leaving, handles_late,
  changes_view_late, installs_view_late, ends_prepare_late, ends_vote_late, ends_collate_late,
  ends_view_change_late, signals_late, marks_later,
}

module _ (P : PrepareMsg → Type 0) where
  -- A thread that is no longer in the map.
  abbrev pub IsGone : ℕ × State → Type 0
  IsGone t = IsThread P t.0 t.1

  threads_from-AreGone :
      (fuel : ℕ) (node : Node) (i totalcon : ℕ)
      → IsHeard P node
      → All IsGone (threads_from fuel node i totalcon)
  unfolding threads_from
  threads_from-AreGone zero node i totalcon h = tt
  threads_from-AreGone (suc fuel) node i totalcon h =
      go _ (le64 i totalcon) (lookup i node.states) refl
        (threads_from-AreGone fuel node (add64 i 1) totalcon h)
    where
      go :
          (rest : List (ℕ × State)) (more : Bool) (found : Option State)
          → lookup i node.states ≡ found
          → All IsGone rest
          → All IsGone (elim more [
            | false ↦ []
            | true ↦ elim found [ none ↦ rest | some s ↦ (i, told s) ∷ rest ]
          ])
      go rest false found e r = tt
      go rest true none e r = r
      go rest true (some s) e r =
          let th = h.threads i s e in
          (
            record {
              numbered = th.numbered;
              mail = th.mail;
              proposal = th.proposal;
              votes = th.votes;
            },
            r,
          )

  threads_dropped-AreGone :
      (node : Node) (seq : ℕ) → IsHeard P node → All IsGone (threads_dropped node seq)
  unfolding threads_dropped
  threads_dropped-AreGone node seq h =
      threads_from-AreGone (suc (suc (gap seq node.total_consensus))) node seq node.total_consensus
        h

  threads_dropped_by-AreGone :
      (node : Node) (m : ViewChangeMsg) (addr now : ℕ)
      → IsHeard P node
      → All IsGone (threads_dropped_by node m addr now)
  unfolding threads_dropped_by
  threads_dropped_by-AreGone node m addr now h =
      go (view_change_on (vc_state_for node m.sequence_id addr).1 m now).1
    where
      go :
          (answer : Option NewViewMsg)
          → All IsGone (elim answer [ none ↦ [] | some nv ↦ threads_dropped node nv.sequence_id ])
      go none = tt
      go (some nv) = threads_dropped-AreGone node nv.sequence_id h

  -- What a step takes out of the map was in it.
  pub leaving-AreGone :
      (env : Env) (w : Wire) (a b : System) (step : WholeStep env w a b)
      → IsValid P a
      → All IsGone (leaving step)
  leaving-AreGone env w a b (inner x y step) v = tt
  leaving-AreGone env w a b (dispatches_view msg rest node node' pairs t h) v = tt
  leaving-AreGone env w a b (changes_view_at seq addr now s m rest node node' pairs e t h) v =
      threads_dropped_by-AreGone _ m addr now
        (taken-IsHeard P node seq s (view_change m) rest v.heard e t)
  leaving-AreGone env w a b (installs_view seq addr now s m rest node node' pairs end e t h) v =
      threads_dropped-AreGone _ m.sequence_id
        (taken-IsHeard P node seq s (new_view m) rest v.heard e t)
  leaving-AreGone env w a b (ends_view_change seq s node node' pairs e h) v = tt

  -- What a step of a dropped thread leaves behind.
  pub record AreSound (seq : ℕ) (node : Node) (s : State) (more : List (ℕ × State)) : Type 0 where
    pub heard : IsHeard P node
    pub sending : IsSending P node
    pub thread : IsThread P seq s
    pub dropped : All IsGone more

  -- The thread without its first message.
  taken-IsThread :
      (seq : ℕ) (s : State) (msg : Message) (rest : Chan Message)
      → IsThread P seq s
      → take s.msg_state ≡ some (msg, rest)
      → IsThread P seq (record s { msg_state = rest })
  taken-IsThread seq s msg rest th t =
      let (c, left) = All-take _ s.msg_state rest msg th.mail t in
      record { numbered = th.numbered; mail = left; proposal = th.proposal; votes = th.votes }

  pub Lingers-AreSound :
      (env : Env) (seq : ℕ) (node : Node) (s : State) (node' : Node) (s' : State)
      (more : List (ℕ × State))
      → IsRange env.first
      → IsMade P env
      → IsOfMakeUp P
      → Lingers env seq node s node' s' more
      → IsHeard P node
      → IsSending P node
      → IsThread P seq s
      → AreSound seq node' s' more
  Lingers-AreSound env seq n st n' st' more range made up
        (handles_late addr now s s' msg rest node node' end t cv h) v out th =
      let (c, left) = All-take _ s.msg_state rest msg th.mail t in
      let k =
        Holds-returned
          (handle-Kept P env range node seq (record s { msg_state = rest }) msg addr now cv v
            (taken-IsThread seq s msg rest th t) c.0 c.1)
          h in
      record {
        heard = k.0;
        sending =
            Holds-returned
              (handle-IsSending P env node (record s { msg_state = rest }) msg addr now cv made out
                c.1)
              h;
        thread = k.1;
        dropped = tt;
      }
  Lingers-AreSound env seq n st n' st' more range made up
        (changes_view_late addr now s m rest node node' t h) v out th =
      record {
        heard = Holds-returned (get_view_change-IsHeard P node m addr now v) h;
        sending = Holds-returned (get_view_change-IsSending P node m addr now out) h;
        thread = taken-IsThread seq s (view_change m) rest th t;
        dropped = threads_dropped_by-AreGone node m addr now v;
      }
  Lingers-AreSound env seq n st n' st' more range made up
        (installs_view_late addr now s m rest node node' end t h) v out th =
      record {
        heard = Holds-returned (get_new_view-IsHeard P env node m addr now up.empty v) h;
        sending = Holds-returned (get_new_view-IsSending P env node m addr now made out) h;
        thread = taken-IsThread seq s (new_view m) rest th t;
        dropped = threads_dropped-AreGone node m.sequence_id v;
      }
  Lingers-AreSound env seq n st n' st' more range made up (ends_prepare_late s s' node node' h) v
        out th =
      let k = Holds-returned (expire_prepare-Kept P env range node seq s v th (up.null seq)) h in
      record {
        heard = k.0;
        sending = Holds-returned (expire_prepare-IsSending P env node seq s out (up.null seq)) h;
        thread = k.1;
        dropped = tt;
      }
  Lingers-AreSound env seq n st n' st' more range made up (ends_vote_late s node node' h) v out th =
      record {
        heard = Holds-returned (expire_vote-IsHeard P env range node seq s v th) h;
        sending = Holds-returned (expire_vote-IsSending P env node s out) h;
        thread = th;
        dropped = tt;
      }
  Lingers-AreSound env seq n st n' st' more range made up (ends_collate_late s node node' h) v out
        th =
      record {
        heard = Holds-returned (expire_collate-IsHeard P env range node seq s v th) h;
        sending = Holds-returned (expire_collate-IsSending P env node s out) h;
        thread = th;
        dropped = tt;
      }
  Lingers-AreSound env seq n st n' st' more range made up (ends_view_change_late s node node' h) v
        out th =
      record {
        heard = Holds-returned (start_view_change-IsHeard P node s.sequence_id v) h;
        sending = Holds-returned (start_view_change-IsSending P node s.sequence_id out) h;
        thread = th;
        dropped = tt;
      }
  Lingers-AreSound env seq n st n' st' more range made up (marks_later s node node' h) v out th =
      record {
        heard = Holds-returned (late_mark-IsHeard P node seq v) h;
        sending = same-IsSending P node node' out (unfold late_mark in ground (arith, h));
        thread = th;
        dropped = tt;
      }
  Lingers-AreSound env seq n st n' st' more range made up (signals_late s s' node t) v out th =
      record { heard = v; sending = out; thread = Signal-IsThread P seq s s' t th; dropped = tt }
