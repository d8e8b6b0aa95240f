-- ===== src/System/Validity.antt =====
-- What the goroutines of a node (pbft/network/node.go, pbft/network/proxy_server.go) execute comes from
-- what they receive, and each thread has the messages of its own sequence number.
use pa_bft.Base.{int64_key, ℕ}
use pa_bft.Base.Reach.{Holds-returned}
use pa_bft.Message.{PrepareMsg}
use pa_bft.Node.Threads.{Env}
use pa_bft.Node.Expiry.{null_proposal}
use pa_bft.Server.{Wire}
use pa_bft.Server.Genesis.{send_genesis_msg_if_primary-frame}
use pa_bft.System.{
  System, Step, receives, dispatches, resolves, handles, ends_prepare, ends_vote, ends_collate,
  executes, sends, prints, begins, marks_late, signals,
}
use pa_bft.System.Mail.{All-take, IfSome, Carries, AllProposals, IsThread, IsHeard}
use pa_bft.System.Hearing.{IsHeard-thread, resolve_msg-IsHeard, late_mark-IsHeard}
use pa_bft.System.Answering.{IsRange}
use pa_bft.System.Ending.{
  handle-Kept, expire_prepare-Kept, expire_vote-IsHeard, expire_collate-IsHeard,
}
use pa_bft.System.Logging.{execute_msg-Fine}
use pa_bft.System.Arriving.{
  IsFair, receive_fair-IsHeard, dispatch_entrance-IsHeard, send_msg-IsHeard, log_error_msg-IsHeard,
  Signal-IsThread,
}

module _ (P : PrepareMsg → Type 0) where
  -- The node and the local map of its executor.
  pub record IsValid (sys : System) : Type 0 where
    pub heard : IsHeard P sys.node
    pub waiting : AllProposals P sys.pairs

  -- The message that a step receives, if it does, is fair.
  abbrev pub HearsFair : {env : Env} {w : Wire} {a b : System} → Step env w a b → Type 0
  HearsFair {w} (receives sender message node node' pairs h) = IsFair P w (w.unpack message)
  HearsFair _ = Unit {0}

  pub Step-IsValid :
      (env : Env) (w : Wire) (a b : System)
      → IsRange env.first
      → ((seq : ℕ) → P (null_proposal seq))
      → (step : Step env w a b) → HearsFair step
      → IsValid a
      → IsValid b
  Step-IsValid env w a b range null (receives sender message node node' pairs h) fair v = record {
    heard = Holds-returned (receive_fair-IsHeard P w sender node message fair v.heard) h;
    waiting = v.waiting;
  }
  Step-IsValid env w a b range null (dispatches msg rest node node' pairs t h) fair v =
      let (c, left) = All-take (Carries P) node.msg_entrance rest msg v.heard.entrance t in
      let h1 : IsHeard P (record node { msg_entrance = rest }) = record {
        entrance = left;
        delivery = v.heard.delivery;
        execution = v.heard.execution;
        threads = v.heard.threads;
        log = v.heard.log;
        views = v.heard.views;
      } in
      record {
        heard =
            Holds-returned
              (dispatch_entrance-IsHeard P (record node { msg_entrance = rest }) msg h1 c) h;
        waiting = v.waiting;
      }
  Step-IsValid env w a b range null (resolves msg rest node node' pairs t h) fair v =
      let (c, left) = All-take (Carries P) node.msg_delivery rest msg v.heard.delivery t in
      let h1 : IsHeard P (record node { msg_delivery = rest }) = record {
        entrance = v.heard.entrance;
        delivery = left;
        execution = v.heard.execution;
        threads = v.heard.threads;
        log = v.heard.log;
        views = v.heard.views;
      } in
      record {
        heard =
            Holds-returned (resolve_msg-IsHeard P (record node { msg_delivery = rest }) msg h1 c) h;
        waiting = v.waiting;
      }
  Step-IsValid env w a b range null
        (handles seq addr now s s' msg rest node node' pairs end e t cv h) fair v =
      let th = v.heard.threads seq s e in
      let (c, left) = All-take _ s.msg_state rest msg th.mail t in
      let t1 : IsThread P seq (record s { msg_state = rest }) = record {
        numbered = th.numbered;
        mail = left;
        proposal = th.proposal;
        votes = th.votes;
      } in
      let k =
        Holds-returned
          (handle-Kept P env range node seq (record s { msg_state = rest }) msg addr now cv v.heard
            t1 c.0 c.1)
          h in
      record { heard = IsHeard-thread P node' seq s' k.0 k.1; waiting = v.waiting }
  Step-IsValid env w a b range null (ends_prepare seq s s' node node' pairs e h) fair v =
      let k =
        Holds-returned
          (expire_prepare-Kept P env range node seq s v.heard (v.heard.threads seq s e) (null seq))
          h in
      record { heard = IsHeard-thread P node' seq s' k.0 k.1; waiting = v.waiting }
  Step-IsValid env w a b range null (ends_vote seq s node node' pairs e h) fair v = record {
    heard =
        Holds-returned
          (expire_vote-IsHeard P env range node seq s v.heard (v.heard.threads seq s e)) h;
    waiting = v.waiting;
  }
  Step-IsValid env w a b range null (ends_collate seq s node node' pairs e h) fair v = record {
    heard =
        Holds-returned
          (expire_collate-IsHeard P env range node seq s v.heard (v.heard.threads seq s e)) h;
    waiting = v.waiting;
  }
  Step-IsValid env w a b range null (executes received rest node node' pairs pairs' t h) fair v =
      let (c, left) = All-take (IfSome P) node.msg_execution rest received v.heard.execution t in
      let h1 : IsHeard P (record node { msg_execution = rest }) = record {
        entrance = v.heard.entrance;
        delivery = v.heard.delivery;
        execution = left;
        threads = v.heard.threads;
        log = v.heard.log;
        views = v.heard.views;
      } in
      let f =
        Holds-returned
          (execute_msg-Fine P (record node { msg_execution = rest }) pairs received h1 v.waiting c)
          h in
      record { heard = f.0; waiting = f.1 }
  Step-IsValid env w a b range null (sends l node node' pairs frame h) fair v = record {
    heard = send_msg-IsHeard P l node node' frame h v.heard;
    waiting = v.waiting;
  }
  Step-IsValid env w a b range null (prints left left' node node' pairs events h) fair v = record {
    heard = log_error_msg-IsHeard P node node' left left' events h v.heard;
    waiting = v.waiting;
  }
  Step-IsValid env w a b range null (begins now node node' pairs h) fair v = record {
    heard = rw (send_genesis_msg_if_primary-frame env node node' now h) v.heard;
    waiting = v.waiting;
  }
  Step-IsValid env w a b range null (marks_late seq s node node' pairs e one h) fair v = record {
    heard = Holds-returned (late_mark-IsHeard P node seq v.heard) h;
    waiting = v.waiting;
  }
  Step-IsValid env w a b range null (signals seq s s' node pairs e t) fair v = record {
    heard =
        IsHeard-thread P node seq s' v.heard
          (Signal-IsThread P seq s s' t (v.heard.threads seq s e));
    waiting = v.waiting;
  }
