-- ===== src/Tests/Talking/Running.antt =====
-- What the two nodes do (pbft/network/node.go, pbft/network/proxy_server.go), step by step, and what
-- that shows.
use text.Mathlib.Text.{◌==◌ as text_beq}
use pa_bft.Base.{
  int64_key, string_key, ℕ, ◌≡◌, refl, arith, ◌⊎◌, inl, inr, none, some, [], ◌∷◌, true, ◌==◌,
  Bool-cases,
}
use pa_bft.Base.Outcome.{Outcome, returns, ok, panic, blocked, out_of_fuel}
use pa_bft.Base.Map.{lookup, insert, delete, contains}
use pa_bft.Message.{Message, PrepareMsg}
use pa_bft.State.{create_state, prepare, verify_msg, set_bizantine}
use pa_bft.State.Voting.{vote as vote_on, vote_result, record_vote}
use pa_bft.Node.{Node}
use pa_bft.Node.Primary.{update_view_id, update_epoch_id}
use pa_bft.Node.Threads.{
  start_thread_if_not_exists, start_timer, stop_timer, broadcast, report, execute,
  broad_cast_next_prepare_msg_if_primary, create_state_for, prepare_msg_making,
}
use pa_bft.Node.Handlers.{
  get_prepare, get_vote, follow_vote, on_vote_answer, execute_proposal, mark_prepared,
}
use pa_bft.Node.Dispatch.{
  deliver, dispatch_entrance, resolve_msg, resolve_counted, hand_to, hand_to_new,
}
use pa_bft.Node.Execute.{execute_msg, execute_loop, execute_one, last_sequence_id}
use pa_bft.Node.Expiry.{handle}
use pa_bft.Node.ViewChanging.{returned}
use pa_bft.Server.{
  sort_msg, receive, enter, deattach_signature_msg, new_node, send_genesis_msg_if_primary,
}
use pa_bft.System.{dispatches, resolves, handles, executes}
use pa_bft.Server.Signing.{sign, verify}
use pa_bft.Server.Sending.{send_msg, broadcast_to, attach_signature_msg}
use pa_bft.System.{begins}
use pa_bft.System.Viewing.{inner}
use pa_bft.System.Answering.{IsRange}
use pa_bft.Tests.Data.{info, proposal, finished, started}
use pa_bft.System.Network.{NetRun, works, speaks, hears, rests, goes}
use pa_bft.System.Integrity.{AreFair, IsNew, NetRun-executes_made}
use pa_bft.Tests.Talking.{
  env, reading, link, two_nodes, at, the_proposal, the_vote, no_mail, entered, delivered, thread,
  run_handler, handled, spoken, a0, a1, b0, b1, b2, b3, b4, b5, b6, b7, b8, b9, b10, b11, m0, m1,
  m2, m3, m4, m5, m6, m7, m8, m9, m10, m11, m12, m13,
}

finished_same : {A : Type 0} (d : A) (m : Outcome A) → returns m ≡ true → m ≡ ok (finished d m)
finished_same d (ok a) h = refl
finished_same d panic h = cc
finished_same d blocked h = cc
finished_same d out_of_fuel h = cc

handled_same :
    (msg : Message) (n : Node)
    → returns (run_handler msg n) ≡ true
    → run_handler msg n ≡ ok (handled msg n)
handled_same msg n h = finished_same (n, thread n, returned) (run_handler msg n) h

talking-NetRun : NetRun (λ i. env) (λ i. reading) (λ i. link) m0 m13
unfolding new_node receive sort_msg enter deattach_signature_msg dispatch_entrance deliver
    resolve_msg resolve_counted hand_to_new hand_to start_thread_if_not_exists start_timer
    stop_timer create_state create_state_for lookup insert delete contains handle get_prepare
    get_vote follow_vote on_vote_answer execute_proposal mark_prepared broadcast report execute
    broad_cast_next_prepare_msg_if_primary update_view_id update_epoch_id prepare verify_msg
    set_bizantine vote_on vote_result record_vote execute_msg execute_loop execute_one
    last_sequence_id send_msg broadcast_to attach_signature_msg sign verify
    send_genesis_msg_if_primary
talking-NetRun =
    goes m0 m1 m13
      (works m0 0 (at a1)
        (inner (at a0) (at a1)
          (begins 0 a0 a1 [] (finished_same started (send_genesis_msg_if_primary env a0 0) refl)))
        refl)
      (goes m1 m2 m13
        (speaks m1 0 (spoken a1).0 (spoken a1).1 (finished_same (a1, none) (send_msg link a1) refl))
        (goes m2 m3 m13
          (hears m2 1 (info "Node1" 1) "p" b1 (inl refl)
            (finished_same started (receive reading (info "Node1" 1) b0 "p") refl))
          (goes m3 m4 m13
            (works m3 1 (at b2)
              (inner (at b1) (at b2) (
                dispatches the_proposal (no_mail b1.msg_entrance) b1 b2 [] refl
                  (finished_same started (dispatch_entrance (entered b1) the_proposal) refl)))
              refl)
            (goes m4 m5 m13
              (works m4 1 (at b3)
                (inner (at b2) (at b3) (
                  resolves the_proposal (no_mail b2.msg_delivery) b2 b3 [] refl
                    (finished_same started (resolve_msg (delivered b2) the_proposal) refl)))
                refl)
              (goes m5 m6 m13
                (works m5 1 (at b4)
                  (inner (at b3) (at b4) (
                    handles 1 0 0 (thread b3) (handled the_proposal b3).1 the_proposal
                      (no_mail (thread b3).msg_state) b3 (handled the_proposal b3).0 []
                      (handled the_proposal b3).2 refl refl refl
                      (handled_same the_proposal b3 refl)))
                  refl)
                (goes m6 m7 m13
                  (speaks m6 1 (spoken b4).0 (spoken b4).1
                    (finished_same (b4, none) (send_msg link b4) refl))
                  (goes m7 m8 m13
                    (speaks m7 1 (spoken b5).0 (spoken b5).1
                      (finished_same (b5, none) (send_msg link b5) refl))
                    (goes m8 m9 m13
                      (hears m8 1 (info "A" 2) "v" b7 (inl refl)
                        (finished_same started (receive reading (info "A" 2) b6 "v") refl))
                      (goes m9 m10 m13
                        (works m9 1 (at b8)
                          (inner (at b7) (at b8) (
                            dispatches the_vote (no_mail b7.msg_entrance) b7 b8 [] refl (
                              finished_same started (dispatch_entrance (entered b7) the_vote)
                                refl)))
                          refl)
                        (goes m10 m11 m13
                          (works m10 1 (at b9)
                            (inner (at b8) (at b9) (
                              resolves the_vote (no_mail b8.msg_delivery) b8 b9 [] refl
                                (finished_same started (resolve_msg (delivered b8) the_vote) refl)))
                            refl)
                          (goes m11 m12 m13
                            (works m11 1 (at b10)
                              (inner (at b9) (at b10) (
                                handles 1 0 0 (thread b9) (handled the_vote b9).1 the_vote
                                  (no_mail (thread b9).msg_state) b9 (handled the_vote b9).0 []
                                  (handled the_vote b9).2 refl refl refl
                                  (handled_same the_vote b9 refl)))
                              refl)
                            (goes m12 m13 m13
                              (works m12 1 (record { node = b11.0; pairs = b11.1 })
                                (inner (at b10) (record { node = b11.0; pairs = b11.1 })
                                  (executes (some (proposal 1)) (no_mail b10.msg_execution) b10
                                    b11.0 [] b11.1 refl
                                    (finished_same (started, [])
                                      (execute_msg
                                        (record b10 { msg_execution = no_mail b10.msg_execution })
                                        [] (some (proposal 1)))
                                      refl)))
                                refl)
                              (rests m13)))))))))))))

first-IsRange : IsRange env.first
unfolding lookup
first-IsRange [] v e = cc
first-IsRange ((id, w) ∷ rest) v e =
    let same : text_beq id id ≡ true = (string_key.same_iff id id).1 refl in (id, rw same e)

-- A proposal with the digest of a request, or made up.
abbrev IsMarked : PrepareMsg → Type 0
IsMarked p = (p.digest ≡ "d") ⊎ (p.digest ≡ "")

talking-AreFair : AreFair IsMarked (λ i. env) (λ i. reading) (λ i. link)
unfolding prepare_msg_making
talking-AreFair = record {
  range = λ i. first-IsRange;
  made = λ i view_id seq id seed epoch_id now. inl refl;
  made_up = record { null = λ seq. inr refl; empty = λ node seq. inr refl };
  conveys = λ i j payload path frame goes_as sent.
      (λ z p e. inl (let f : proposal 1 ≡ p = ground arith in rw (← f) refl), λ z. inl refl);
}

m0-IsNew : (i : ℕ) → IsNew (m0.at i)
unfolding new_node update_view_id
m0-IsNew i = elim (Bool-cases (i == 0)) [
  | inl here ↦ (info "Node1" 1, two_nodes, [], 0, rw here refl, refl)
  | inr other ↦ (info "A" 2, two_nodes, [], 0, rw other refl, refl)
]

-- The second node has executed a proposal, with the digest of a request.
NetRun-executes_made_example : IsMarked (proposal 1)
unfolding new_node receive sort_msg enter deattach_signature_msg dispatch_entrance deliver
    resolve_msg resolve_counted hand_to_new hand_to start_thread_if_not_exists start_timer
    stop_timer create_state create_state_for lookup insert delete contains handle get_prepare
    get_vote follow_vote on_vote_answer execute_proposal mark_prepared broadcast report execute
    broad_cast_next_prepare_msg_if_primary update_view_id update_epoch_id prepare verify_msg
    set_bizantine vote_on vote_result record_vote execute_msg execute_loop execute_one
    last_sequence_id send_msg broadcast_to attach_signature_msg sign verify
    send_genesis_msg_if_primary
NetRun-executes_made_example =
    NetRun-executes_made IsMarked (λ i. env) (λ i. reading) (λ i. link) m0 m13 talking-AreFair
      m0-IsNew (λ i. refl) refl talking-NetRun 1 1 (proposal 1) refl
