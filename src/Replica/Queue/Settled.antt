-- ===== src/Replica/Queue/Settled.antt =====
-- The loops of `process_message_queue` end, and how they end.
use vsr_kv.Common.{
  ℕ, zero, suc, ◌≤◌, ◌<◌, ◌≡◌, refl, sym, ap, subst, ◌⊎◌, inl, inr, Bool, true, false, List, [],
  ◌∷◌, arith, Bool-cases, length,
}
use vsr_kv.ReplicaState.{ReplicaState}
use vsr_kv.Replica.{Replica, InboundMessage, Env}
use vsr_kv.Replica.Queue.{Verdict, verdict, drain, act, passes, dispatch}

abbrev Drained : Type 0
Drained = Replica × List InboundMessage × Bool

-- The three ways of a round, with the verdict kept.
pub Verdict-cases :
    (v : Verdict) → (v ≡ Verdict.discard) ⊎ (v ≡ Verdict.handle) ⊎ (v ≡ Verdict.wait)
Verdict-cases Verdict.discard = inl refl
Verdict-cases Verdict.handle = inr (inl refl)
Verdict-cases Verdict.wait = inr (inr refl)

drain_cases :
    (P : Drained → Type 0) (env : Env) (m : InboundMessage) (q : List InboundMessage)
    (processed : Bool) (r : Replica)
    → (verdict m r.state ≡ Verdict.wait → P (r, m ∷ q, processed))
    → ((r1 : Replica) → P (drain env q true r1))
    → P (drain env (m ∷ q) processed r)
unfolding drain
drain_cases P env m q processed r waits taken = elim (Verdict-cases (verdict m r.state)) [
  | inl e ↦ rw (e, drain) (taken r)
  | inr (inl e) ↦ rw (e, drain) (taken (dispatch env m r))
  | inr (inr e) ↦ rw (e, drain) (waits e)
]

-- A message at the front that cannot be handled, or none.
abbrev pub Waits : List InboundMessage → ReplicaState → Type 0
Waits [] s = Unit
Waits (m ∷ q) s = verdict m s ≡ Verdict.wait

-- After the inner loop: the queue is no longer, it is shorter if a message was taken, and its
-- front waits; where none was taken nothing has changed.
pub record DrainedTo (q : List InboundMessage) (d : Drained) : Type 0 where
  pub shorter : length d.1 ≤ length q
  pub waits : Waits d.1 d.0.state

drain-DrainedTo :
    (env : Env) (q : List InboundMessage) (processed : Bool) (r : Replica)
    → DrainedTo q (drain env q processed r)
drain-DrainedTo env [] processed r = unfold drain in record { shorter = omega arith; waits = tt }
drain-DrainedTo env (m ∷ q) processed r =
    drain_cases (DrainedTo (m ∷ q)) env m q processed r
      (λ e. record { shorter = omega arith; waits = e })
      λ r1.
        let d = drain-DrainedTo env q true r1 in
        record { shorter = omega (arith, d.shorter); waits = d.waits }

drain_taken :
    (env : Env) (q : List InboundMessage) (r : Replica)
    → (drain env q false r ≡ (r, q, false)) ⊎ (length (drain env q false r).1 < length q)
drain_taken env [] r = unfold drain in inl refl
drain_taken env (m ∷ q) r =
    drain_cases (λ d. (d ≡ (r, m ∷ q, false)) ⊎ (length d.1 < length (m ∷ q))) env m q false r
      (λ e. inl refl) λ r1. inr (omega (arith, (drain-DrainedTo env q true r1).shorter))

drain_processed :
    (env : Env) (q : List InboundMessage) (r : Replica) → (drain env q true r).2 ≡ true
drain_processed env [] r = unfold drain in refl
drain_processed env (m ∷ q) r =
    drain_cases (λ d. d.2 ≡ true) env m q true r (λ e. refl) (λ r1. drain_processed env q r1)

drain_untaken :
    (env : Env) (q : List InboundMessage) (r : Replica)
    → (drain env q false r).2 ≡ false
    → drain env q false r ≡ (r, q, false)
drain_untaken env [] r = unfold drain in λ e. refl
drain_untaken env (m ∷ q) r =
    drain_cases (λ d. d.2 ≡ false → d ≡ (r, m ∷ q, false)) env m q false r (λ e p. refl)
      (λ r1 p. let t = drain_processed env q r1 in cc)

act_shorter :
    (env : Env) (q : List InboundMessage) (r : Replica) → length (act env q r).1 ≤ length q
unfolding act
act_shorter env [] r = omega arith
act_shorter env (m ∷ q) r = ground arith

-- The do loop of the source: from a replica and its queue to the replica and the queue with which
-- it ends, after this many passes. A pass that takes a message off the queue is followed by
-- another one; the loop ends with a pass that takes none, and with the action for the message at
-- the front, which waits.
pub data Loops (env : Env)
    : ℕ → Replica → List InboundMessage → Replica → List InboundMessage → Type 0 where
  last :
      (r : Replica) (q : List InboundMessage)
      → drain env q false r ≡ (r, q, false)
      → Waits q r.state
      → Loops env 1 r q (act env q r).0 (act env q r).1
  again :
      (n : ℕ) (r s : Replica) (q left : List InboundMessage)
      → (drain env q false r).2 ≡ true
      → Loops env n
          (act env (drain env q false r).1 (drain env q false r).0).0
          (act env (drain env q false r).1 (drain env q false r).0).1
          s
          left
      → Loops env (suc n) r q s left

-- The loop ends, after at most so many passes.
abbrev pub EndsWithin :
    Env → ℕ → Replica → List InboundMessage → Replica × List InboundMessage → Type 0
EndsWithin env most r q result = (n : ℕ) × (n ≤ most) × Loops env n r q result.0 result.1

last-EndsWithin :
    (n : ℕ) (env : Env) (q : List InboundMessage) (r : Replica)
    → (drain env q false r).2 ≡ false
    → EndsWithin env (suc n) r q (passes (suc n) env q r)
unfolding passes
last-EndsWithin n env q r t =
    let e = drain_untaken env q r t in
    let w = subst (λ d. Waits d.1 d.0.state) e (drain-DrainedTo env q false r).waits in
    subst (EndsWithin env (suc n) r q) (sym (rw (t, passes) (ap (λ d. act env d.1 d.0) e)))
      (1, omega arith, Loops.last r q e w)

drain_shorter :
    (env : Env) (q : List InboundMessage) (r : Replica)
    → (drain env q false r).2 ≡ true
    → length (drain env q false r).1 < length q
drain_shorter env q r t = elim (drain_taken env q r) [
  | inl e ↦ let absurdity = ap (λ d. d.2) e in cc
  | inr h ↦ h
]

passes_again :
    (n : ℕ) (env : Env) (q : List InboundMessage) (r : Replica)
    → (drain env q false r).2 ≡ true
    → let d = drain env q false r in
      let a = act env d.1 d.0 in passes (suc n) env q r ≡ passes n env a.1 a.0
unfolding passes
passes_again n env q r t = rw (t, passes)

-- With more rounds than messages the outer loop ends by its own test, whatever the messages are.
pub passes-EndsWithin :
    (n : ℕ) (env : Env) (q : List InboundMessage) (r : Replica)
    → length q < n
    → EndsWithin env n r q (passes n env q r)
passes-EndsWithin zero env q r h = elim h [ ]
passes-EndsWithin (suc n) env q r h = elim (Bool-cases (drain env q false r).2) [
  | inr t ↦ last-EndsWithin n env q r t
  | inl t ↦
      let d = drain env q false r in
      let a = act env d.1 d.0 in
      let (k, l, p) =
        passes-EndsWithin n env a.1 a.0
          (omega (arith, act_shorter env d.1 d.0, drain_shorter env q r t)) in
      rw (passes_again n env q r t) (suc k, omega arith, Loops.again k r _ q _ t p)
]
