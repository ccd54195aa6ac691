-- ===== src/Replica/Queue/Keeps.antt =====
-- What every handler keeps, the queue keeps, unless the replica gives up and recovers.
use vsr_kv.Common.{
  ℕ, zero, suc, ◌+◌, ◌≡◌, refl, ◌≢◌, ◌⊎◌, inl, inr, Bool, true, false, List, [], ◌∷◌, Bool-cases,
  length,
}
use vsr_kv.ReplicaState.{ReplicaStatus, is_normal, is_recovery}
use vsr_kv.Replica.{Replica, InboundMessage, Env}
use vsr_kv.Replica.ViewChange.{initiate_view_change}
use vsr_kv.Replica.Recovery.{initiate_recovery}
use vsr_kv.Replica.Queue.{
  StateAction, Verdict, determine_state_action, dispatch, verdict, drain, act, passes,
  process_message_queue,
}
use vsr_kv.Replica.Queue.Settled.{Verdict-cases}

-- Handlers that keep `G`, of a replica and the messages that are left, and no view change.
pub record Keeps (env : Env) (G : Replica → List InboundMessage → Type 0) : Type 0 where
  pub discarded : (m : InboundMessage) (q : List InboundMessage) (r : Replica) → G r (m ∷ q) → G r q
  pub handled :
      (m : InboundMessage) (q : List InboundMessage) (r : Replica)
      → verdict m r.state ≡ Verdict.handle
      → G r (m ∷ q)
      → G (dispatch env m r) q
  pub stays :
      (m : InboundMessage) (q : List InboundMessage) (r : Replica)
      → G r (m ∷ q)
      → determine_state_action m.message r.state ≢ StateAction.initiate_view_change

recovery-not_normal : (s : ReplicaStatus) → is_recovery s ≡ true → is_normal s ≡ false
recovery-not_normal ReplicaStatus.normal h = cc
recovery-not_normal _ h = refl

begin_recovery-status :
    (env : Env) (r : Replica) → is_normal (initiate_recovery env r).state.status ≡ false
unfolding initiate_recovery
begin_recovery-status env r = elim (Bool-cases (is_recovery r.state.status)) [
  | inl e ↦ rw (e, initiate_recovery) (recovery-not_normal r.state.status e)
  | inr e ↦ rw (e, initiate_recovery) refl
]

module _ (env : Env) (G : Replica → List InboundMessage → Type 0) (keeps : Keeps env G) where
  -- Kept, or in recovery with an empty queue.
  abbrev Left : Replica → List InboundMessage → Type 0
  Left r q = G r q ⊎ ((is_normal r.state.status ≡ false) × (q ≡ []))

  drain-Left :
      (q : List InboundMessage) (processed : Bool) (r : Replica)
      → G r q
      → let d = drain env q processed r in G d.0 d.1
  unfolding drain
  drain-Left [] processed r g = g
  drain-Left (m ∷ q) processed r g = elim (Verdict-cases (verdict m r.state)) [
    | inl e ↦ rw (e, drain) (drain-Left q true r (keeps.discarded m q r g))
    | inr (inl e) ↦ rw (e, drain) (drain-Left q true (dispatch env m r) (keeps.handled m q r e g))
    | inr (inr e) ↦ rw (e, drain) g
  ]

  acted-Left :
      (action : StateAction) (q : List InboundMessage) (r : Replica)
      → action ≢ StateAction.initiate_view_change
      → G r q
      → let d : Replica × List InboundMessage = elim action [
        | StateAction.initiate_recovery ↦ (initiate_recovery env r, [])
        | StateAction.initiate_view_change ↦ (initiate_view_change r, q)
        | StateAction.process_normally ↦ (r, q)
      ] in
        Left d.0 d.1
  acted-Left StateAction.initiate_recovery q r h g = inr (begin_recovery-status env r, refl)
  acted-Left StateAction.initiate_view_change q r h g = absurd (h refl)
  acted-Left StateAction.process_normally q r h g = inl g

  act-Left : (q : List InboundMessage) (r : Replica) → G r q → let d = act env q r in Left d.0 d.1
  unfolding act
  act-Left [] r g = inl g
  act-Left (m ∷ q) r g = elim (Bool-cases (is_normal r.state.status)) [
    | inr e ↦ rw (e, act) (inl g)
    | inl e ↦
        rw (e, act)
          (acted-Left (determine_state_action m.message r.state) (m ∷ q) r (keeps.stays m q r g) g)
  ]

  passes-gone : (n : ℕ) (r : Replica) → passes n env [] r ≡ (r, [])
  unfolding passes drain act
  passes-gone zero r = refl
  passes-gone (suc n) r = refl

  passes-Left :
      (n : ℕ) (q : List InboundMessage) (r : Replica)
      → G r q
      → let d = passes n env q r in Left d.0 d.1
  unfolding passes
  passes-Left zero q r g = inl g
  passes-Left (suc n) q r g =
      let d = drain env q false r in
      let a = act env d.1 d.0 in
      let l = act-Left d.1 d.0 (drain-Left q false r g) in
      elim (Bool-cases (d.2)) [
        | inr e ↦ rw (e, passes) l
        | inl e ↦
            rw (e, passes)
              (elim l [
                | inl g ↦ passes-Left n a.1 a.0 g
                | inr (s, x) ↦ rw (x, passes-gone n a.0) (inr (s, refl))
              ])
      ]

  -- The messages that are left, and the replica without them.
  pub process_message_queue-Keeps :
      (r : Replica)
      → G r r.message_queue
      → is_normal (process_message_queue env r).state.status ≡ true
      → (s : Replica) × (q : List InboundMessage) × (process_message_queue env r
          ≡ record s { message_queue = q })
        × G s q
  unfolding process_message_queue
  process_message_queue-Keeps r g h =
      let d = passes (length r.message_queue + 1) env r.message_queue r in
      elim (passes-Left (length r.message_queue + 1) r.message_queue r g) [
        | inl g ↦ (d.0, d.1, refl, g)
        | inr (s, x) ↦ cc
      ]
