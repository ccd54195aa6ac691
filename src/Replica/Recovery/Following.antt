-- ===== src/Replica/Recovery/Following.antt =====
-- A recovering replica takes over the state of the best responder.
use vsr_kv.Common.{
  ◌++◌, length-append, ap, suc, le→ltb, Option, length, ◌+◌, ℕ, ◌≤◌, ◌<◌, ◌≡◌, refl, sym, subst,
  ◌∙◌, true, List, [], ◌∷◌, map, foldl, arith, All,
}
use vsr_kv.Utilities.{u128_eq_iff, U128, zero_u128}
use vsr_kv.Message.{VsrMessage}
use vsr_kv.Message.Layout.{U128Fits}
use vsr_kv.Serialization.{deserialize_recovery_response}
use vsr_kv.Serialization.RoundTrip.{strip_all, LogFits, deserialize-serialize_recovery_response}
use vsr_kv.ReplicaState.{ReplicaState, ReplicaStatus}
use vsr_kv.Replica.{with_state, Replica, Env}
use vsr_kv.Replica.Execute.Machine.{execute_commited_ops-Frame}
use vsr_kv.Replica.Normal.Replication.{InSync}
use vsr_kv.Replica.ViewChange.StartView.{strip_all_twice}
use vsr_kv.Replica.Recovery.{
  handle_recovery_response, collect_response, recovery_response_message, better_response,
  response_log, adopt_response, finish_recovery,
}
use vsr_kv.Replica.Recovery.Best.{NotAfter, OneOf, OneOf-All, OneOf-map, response, choose}

-- The replica has the responder's state.
pub record Follows (r : Replica) (best : ReplicaState) : Type 0 where
  pub sync : InSync best r.state
  pub commit : r.state.commit ≡ best.commit
  pub status : r.state.status ≡ ReplicaStatus.normal
  pub responses : r.state.recovery_responses ≡ []

module _ (nonce : U128) where
  response_log-response :
      (s : ReplicaState)
      → U128Fits nonce
      → LogFits s.log
      → deserialize_recovery_response
          (response nonce s).payload
          (record { nonce = zero_u128; log = [] })
        ≡ (true, record { nonce = nonce; log = strip_all s.log })
  unfolding recovery_response_message
  response_log-response s f g =
      deserialize-serialize_recovery_response (record { nonce = nonce; log = s.log })
        (record { nonce = zero_u128; log = [] }) f g refl

  finish_recovery-Follows :
      (env : Env) (best : ReplicaState) (r : Replica)
      → U128Fits nonce
      → LogFits best.log
      → Follows (finish_recovery env (response nonce best) r) best
  unfolding finish_recovery adopt_response response_log recovery_response_message
  finish_recovery-Follows env best r f g =
      let h = execute_commited_ops-Frame (adopt_response env (response nonce best) r) in
      let log = ap (λ d. d.1.log) (response_log-response best f g) in
      record {
        sync = record {
          view = h.view;
          op = h.op;
          log = ap strip_all (h.log ∙ log) ∙ strip_all_twice best.log;
        };
        commit = h.commit;
        status = h.status;
        responses = refl;
      }

  collect_response-quorum :
      (env : Env) (m first : VsrMessage) (rest : List VsrMessage) (r : Replica)
      → r.state.recovery_responses ++ (m ∷ []) ≡ first ∷ rest
      → r.state.fault_tolerance_f < length (first ∷ rest)
      → collect_response env m r
        ≡ finish_recovery env
            (foldl better_response first rest)
            (with_state (record (r.state) { recovery_responses = first ∷ rest }) r)
  unfolding collect_response
  collect_response-quorum env m first rest r e q =
      rw
        (
          e,
          collect_response,
          le→ltb (length (first ∷ rest)) (r.state.fault_tolerance_f + 1) (omega arith),
        )
        (ap
          (λ l.
            finish_recovery env (foldl better_response first rest)
              (with_state (record (r.state) { recovery_responses = l }) r))
          e)

  -- The new response completes the quorum.
  collect_response-Follows :
      (env : Env) (m : VsrMessage) (r : Replica) (senders : List ReplicaState)
      → U128Fits nonce
      → All (λ s. LogFits s.log) senders
      → r.state.recovery_responses ++ (m ∷ []) ≡ map (response nonce) senders
      → r.state.fault_tolerance_f < length (map (response nonce) senders)
      → OneOf
          (λ best. Follows (collect_response env m r) best × All (NotAfter best) senders)
          senders
  collect_response-Follows env m r [] f g e q = absurd (omega arith)
  collect_response-Follows env m r (first ∷ rest) f g e q =
      OneOf-map _ _ (first ∷ rest)
        (λ best (fit, (chosen, last)). (
          subst (λ r1. Follows r1 best)
              (sym (
                collect_response-quorum env m (response nonce first) (map (response nonce) rest) r e
                  q
                ∙ ap (λ c. finish_recovery env c waiting) chosen))
              (finish_recovery-Follows env best waiting f fit),
          last,
        ))
        (OneOf-All _ _ (first ∷ rest) g (choose nonce first rest))
    where
      waiting : Replica
      waiting =
          with_state
            (record (r.state) {
              recovery_responses = response nonce first ∷ map (response nonce) rest;
            })
            r

  read_response :
      (env : Env) (connection : Option ℕ) (s : ReplicaState) (r : Replica)
      → U128Fits nonce
      → LogFits s.log
      → r.state.recovery_nonce ≡ nonce
      → handle_recovery_response env
          (record { connection = connection; message = response nonce s })
          r
        ≡ collect_response env (response nonce s) r
  unfolding handle_recovery_response
  read_response env connection s r f g e = rw (
    response_log-response s f g,
    handle_recovery_response,
    (u128_eq_iff nonce r.state.recovery_nonce).1 (sym e),
  )

All-last :
    (P : ReplicaState → Type 0) (ss : List ReplicaState) (s : ReplicaState)
    → All P (ss ++ (s ∷ []))
    → P s
All-last P [] s a = a.0
All-last P (t ∷ ss) s a = All-last P ss s a.1

length-map :
    (m : ReplicaState → VsrMessage) (ss : List ReplicaState) → length (map m ss) ≡ length ss
length-map m [] = refl
length-map m (s ∷ ss) = ap suc (length-map m ss)

map-last :
    (m : ReplicaState → VsrMessage) (ss : List ReplicaState) (s : ReplicaState)
    → map m ss ++ (m s ∷ []) ≡ map m (ss ++ (s ∷ []))
map-last m [] s = refl
map-last m (t ∷ ss) s = ap (◌∷◌ (m t)) (map-last m ss s)

-- A recovering replica holds responses that answer its own nonce, and the new one does so too
-- and makes them f + 1 or more. Then the replica is in normal operation with the view, the
-- operations and the commit number of one of the responders, and no other responder is in a
-- later view, or in the same view with more operations. The nonce and the logs must fit the
-- integers that they are sent in.
pub handle_recovery_response-Follows :
    (env : Env) (connection : Option ℕ) (senders : List ReplicaState) (s : ReplicaState)
    (r : Replica)
    → let response = recovery_response_message r.state.recovery_nonce in
      let all = senders ++ (s ∷ []) in
      U128Fits r.state.recovery_nonce
      → All (λ t. LogFits t.log) all
      → r.state.recovery_responses ≡ map response senders
      → r.state.fault_tolerance_f ≤ length senders
      → let r' =
          handle_recovery_response env
            (record { connection = connection; message = response s })
            r in
        OneOf (λ best. Follows r' best × All (NotAfter best) all) all
handle_recovery_response-Follows env connection senders s r f g e q =
    let nonce = r.state.recovery_nonce in
    let response : ReplicaState → VsrMessage = recovery_response_message nonce in
    let all = senders ++ (s ∷ []) in
    subst (λ r1. OneOf (λ best. Follows r1 best × All (NotAfter best) all) all)
      (sym (read_response nonce env connection s r f (All-last _ senders s g) refl))
      (collect_response-Follows nonce env (response s) r all f g
        (ap (λ l. l ++ (response s ∷ [])) e ∙ map-last response senders s)
        (omega (arith, length-map response all, length-append senders (s ∷ []))))
