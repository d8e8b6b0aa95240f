-- ===== src/System/Renewing.antt =====
-- A new view (pbft/network/view.go), and every step of a node with its view changes, keep what the
-- channels, threads and the log of the node hold.
use pa_bft.Base.{
  int64_key, ℕ, ◌≡◌, ◌==◌, some, Bool, true, false, add64, rem64, if◌then◌else◌, get_elem?,
}
use text.Mathlib.Text.{◌==◌ as text_beq}
use pa_bft.Base.Map.{lookup}
use pa_bft.Base.Outcome.{deref}
use pa_bft.Base.Chan.{Chan, take}
use pa_bft.Base.Reach.{Holds, Holds-ok, Holds-bind, Holds-any, Holds-if, Holds-send, Holds-returned}
use pa_bft.Message.{Message, PrepareMsg, NewViewMsg, view_change, new_view}
use pa_bft.State.{State}
use pa_bft.Node.{Node, NodeInfo, prepares}
use pa_bft.Node.Threads.{Env, prepare_msg_making, no_seed}
use pa_bft.Node.Dispatch.{deliver, dispatch_view_entrance}
use pa_bft.Node.Filling.{empty_proposal}
use pa_bft.Node.ViewChanging.{register_new_view, next_candidate, propose_first, get_new_view}
use pa_bft.Server.{Wire}
use pa_bft.Node.Expiry.{null_proposal}
use pa_bft.System.{
  System, Step, receives, dispatches, resolves, handles, ends_prepare, ends_vote, ends_collate,
  executes, sends, prints, begins, marks_late, signals, put_state,
}
use pa_bft.System.Viewing.{
  WholeStep, WholeRun, inner, dispatches_view, changes_view_at, installs_view, ends_view_change,
  ends, goes_on,
}
use pa_bft.System.Mail.{All-append, All-take, Carries, IsHeard}
use pa_bft.System.Hearing.{broadcast-IsHeard, start_thread_if_not_exists-IsHeard, IsHeard-thread}
use pa_bft.System.Answering.{IsRange}
use pa_bft.System.Arriving.{IsOfAll}
use pa_bft.System.Cutting.{
  start_view_change-IsHeard, drop_from-IsHeard, vc_state_for-IsHeard, install_view-IsHeard,
  get_view_change-IsHeard,
}
use pa_bft.System.Validity.{IsValid, HearsFair, Step-IsValid}

module _ (P : PrepareMsg → Type 0) where
  register_new_view-IsHeard :
      (node : Node) (nv : NewViewMsg) (addr : ℕ)
      → IsHeard P node
      → IsHeard P (register_new_view node nv addr)
  unfolding register_new_view
  register_new_view-IsHeard node nv addr h =
      vc_state_for-IsHeard P (record node { next_candidate_idx = nv.next_candidate_idx })
        nv.sequence_id addr h

  next_candidate-IsHeard :
      (node : Node) (seq : ℕ) → IsHeard P node → IsHeard P (next_candidate node seq)
  next_candidate-IsHeard node seq h = go (rem64 seq 10 == 0) node h
    where
      go :
          (tenth : Bool) (node : Node)
          → IsHeard P node
          → IsHeard P (
              if tenth
              then record node { next_candidate_idx = 7 }
              else record node { next_candidate_idx = add64 node.next_candidate_idx 1 })
      go true node h = h
      go false node h = h

  propose_first-IsHeard :
      (env : Env) (node : Node) (nv : NewViewMsg) (primary : NodeInfo) (now : ℕ)
      → IsHeard P node
      → Holds (propose_first env node nv primary now) (λ r. IsHeard P r.0)
  unfolding propose_first
  propose_first-IsHeard env node nv primary now h =
      Holds-if (text_beq primary.node_id node.my_info.node_id)
        (λ z.
          Holds-bind
            (broadcast-IsHeard P node
              (prepares (
                prepare_msg_making env "Op1" "Client1" node.view.id nv.sequence_id
                  node.my_info.node_id no_seed node.epoch_id now))
              "/prepare" h)
            λ proposed e h1. Holds-ok h1)
        (λ z. Holds-ok h)

  pub get_new_view-IsHeard :
      (env : Env) (node : Node) (nv : NewViewMsg) (addr now : ℕ)
      → ((n : Node) (seq : ℕ) → P (empty_proposal n seq))
      → IsHeard P node
      → Holds (get_new_view env node nv addr now) (λ r. IsHeard P r.0)
  unfolding get_new_view
  get_new_view-IsHeard env node nv addr now empty h =
      let seq = nv.sequence_id in
      Holds-bind (drop_from-IsHeard P (record node { is_view_changing = true }) seq h)
        λ dropped e h1.
          let h2 = register_new_view-IsHeard dropped nv addr h1 in
          Holds-bind (install_view-IsHeard P (register_new_view dropped nv addr) nv empty h2)
            λ installed e1 h3.
              Holds-bind
                (Holds-any (deref (get_elem? installed.node_table installed.next_candidate_idx)))
                λ primary e2 u.
                  let h4 = next_candidate-IsHeard installed seq h3 in
                  Holds-bind
                    (start_thread_if_not_exists-IsHeard P (next_candidate installed seq) seq h4)
                    λ r e3 h5.
                      propose_first-IsHeard env (record r.0 { is_view_changing = false }) nv primary
                        now h5.0

  dispatch_view_entrance-IsHeard :
      (node : Node) (msg : Message)
      → IsHeard P node
      → Carries P msg
      → Holds (dispatch_view_entrance node msg) (IsHeard P)
  unfolding dispatch_view_entrance deliver
  dispatch_view_entrance-IsHeard node msg h c = Holds-send node.msg_delivery _ _ λ room.
      Holds-ok (record {
        entrance = h.entrance;
        views = h.views;
        delivery = All-append (Carries P) node.msg_delivery.queue msg h.delivery c;
        execution = h.execution;
        threads = h.threads;
        log = h.log;
      })

  -- A thread that has taken its first message.
  pub taken-IsHeard :
      (node : Node) (seq : ℕ) (s : State) (msg : Message) (rest : Chan Message)
      → IsHeard P node
      → lookup seq node.states ≡ some s
      → take s.msg_state ≡ some (msg, rest)
      → IsHeard P (put_state node seq (record s { msg_state = rest }))
  taken-IsHeard node seq s msg rest h e t =
      let th = h.threads seq s e in
      let (c, left) = All-take _ s.msg_state rest msg th.mail t in
      IsHeard-thread P node seq (record s { msg_state = rest }) h
        (record { numbered = th.numbered; mail = left; proposal = th.proposal; votes = th.votes })

  abbrev pub WholeHearsFair : {env : Env} {w : Wire} {a b : System} → WholeStep env w a b → Type 0
  WholeHearsFair (inner x y step) = HearsFair P step
  WholeHearsFair _ = Unit {0}

  -- What the node makes up itself has the property.
  pub record IsOfMakeUp : Type 0 where
    pub null : (seq : ℕ) → P (null_proposal seq)
    pub empty : (node : Node) (seq : ℕ) → P (empty_proposal node seq)

  pub WholeStep-IsValid :
      (env : Env) (w : Wire) (a b : System)
      → IsRange env.first
      → IsOfMakeUp
      → (step : WholeStep env w a b) → WholeHearsFair step
      → IsValid P a
      → IsValid P b
  WholeStep-IsValid env w a b range made (inner x y step) fair v =
      Step-IsValid P env w x y range made.null step fair v
  WholeStep-IsValid env w a b range made (dispatches_view msg rest node node' pairs t h) fair v =
      let (c, left) = All-take (Carries P) node.view_msg_entrance rest msg v.heard.views t in
      let h1 : IsHeard P (record node { view_msg_entrance = rest }) = record {
        entrance = v.heard.entrance;
        views = left;
        delivery = v.heard.delivery;
        execution = v.heard.execution;
        threads = v.heard.threads;
        log = v.heard.log;
      } in
      record {
        heard =
            Holds-returned
              (dispatch_view_entrance-IsHeard (record node { view_msg_entrance = rest }) msg h1 c)
              h;
        waiting = v.waiting;
      }
  WholeStep-IsValid env w a b range made
        (changes_view_at seq addr now s m rest node node' pairs e t h) fair v =
      let h1 = taken-IsHeard node seq s (view_change m) rest v.heard e t in
      record {
        heard = Holds-returned (get_view_change-IsHeard P _ m addr now h1) h;
        waiting = v.waiting;
      }
  WholeStep-IsValid env w a b range made
        (installs_view seq addr now s m rest node node' pairs end e t h) fair v =
      let h1 = taken-IsHeard node seq s (new_view m) rest v.heard e t in
      record {
        heard = Holds-returned (get_new_view-IsHeard env _ m addr now made.empty h1) h;
        waiting = v.waiting;
      }
  WholeStep-IsValid env w a b range made (ends_view_change seq s node node' pairs e h) fair v =
      record {
        heard = Holds-returned (start_view_change-IsHeard P node s.sequence_id v.heard) h;
        waiting = v.waiting;
      }

  -- Where every text is read fairly, every step is fair.
  Step-HearsFair :
      (env : Env) (w : Wire) (a b : System)
      → IsOfAll P w
      → (step : Step env w a b) → HearsFair P step
  Step-HearsFair env w a b all (receives sender message node node' pairs h) = (
    λ z p there. all.in_prepares (w.unpack message).marshalled_msg p there,
    λ z. all.in_votes (w.unpack message).marshalled_msg,
  )
  Step-HearsFair env w a b all (dispatches msg rest node node' pairs t h) = tt
  Step-HearsFair env w a b all (resolves msg rest node node' pairs t h) = tt
  Step-HearsFair env w a b all (handles seq addr now s s' msg rest node node' pairs end e t cv h) =
      tt
  Step-HearsFair env w a b all (ends_prepare seq s s' node node' pairs e h) = tt
  Step-HearsFair env w a b all (ends_vote seq s node node' pairs e h) = tt
  Step-HearsFair env w a b all (ends_collate seq s node node' pairs e h) = tt
  Step-HearsFair env w a b all (executes received rest node node' pairs pairs' t h) = tt
  Step-HearsFair env w a b all (sends l node node' pairs frame h) = tt
  Step-HearsFair env w a b all (prints left left' node node' pairs events h) = tt
  Step-HearsFair env w a b all (begins now node node' pairs h) = tt
  Step-HearsFair env w a b all (marks_late seq s node node' pairs e one h) = tt
  Step-HearsFair env w a b all (signals seq s s' node pairs e t) = tt

  WholeStep-HearsFair :
      (env : Env) (w : Wire) (a b : System)
      → IsOfAll P w
      → (step : WholeStep env w a b) → WholeHearsFair step
  WholeStep-HearsFair env w a b all (inner x y step) = Step-HearsFair env w x y all step
  WholeStep-HearsFair env w a b all (dispatches_view msg rest node node' pairs t h) = tt
  WholeStep-HearsFair env w a b all (changes_view_at seq addr now s m rest node node' pairs e t h) =
      tt
  WholeStep-HearsFair env w a b all
        (installs_view seq addr now s m rest node node' pairs end e t h) =
      tt
  WholeStep-HearsFair env w a b all (ends_view_change seq s node node' pairs e h) = tt

  pub WholeRun-IsValid :
      (env : Env) (w : Wire) (a b : System)
      → IsRange env.first
      → IsOfAll P w
      → WholeRun env w a b
      → IsValid P a
      → IsValid P b
  WholeRun-IsValid env w a b range all (ends sys) v = v
  WholeRun-IsValid env w a b range all (goes_on x y z step rest) v =
      WholeRun-IsValid env w y z range all rest (
        WholeStep-IsValid env w x y range (record { null = all.in_null; empty = all.in_empty }) step
          (WholeStep-HearsFair env w x y all step) v)
