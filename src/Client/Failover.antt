-- ===== src/Client/Failover.antt =====
-- To which replica a message goes.
use vsr_kv.ReplicaState.{inc32}
use vsr_kv.Message.Codec.{serialize}
use vsr_kv.Message.Checksum.{Blake3}
use vsr_kv.Message.{VsrMessage}
use vsr_kv.Common.{
  ℕ, zero, suc, ◌+◌, ◌-◌, ◌%◌, ◌<◌, ◌≡◌, ap, subst, ◌∙◌, ◌⊎◌, inl, inr, true, false, Option, none,
  some, List, arith, dec_lt, Bool-cases,
}
use native.Mathlib.Nat.{mod-add-mod, mod-eq_of_lt, add-mod_right}
use vsr_kv.Common.Map.{nat_key}
use vsr_kv.Client.{
  ClientProgram, connected_to, advance_to_next_replica, send_through, attempts, numbered,
  send_message,
}

-- The replica that is `k` further on.
abbrev pub target : ℕ → ClientProgram → ℕ → ℕ
target total p k = (p.current_target_replica_id + k) % total

abbrev pub at : ℕ → ClientProgram → ClientProgram
at id p = record p { current_target_replica_id = id }

-- The message goes to the replica that is `k` further on, the first one that is connected.
pub record SentTo (total rounds : ℕ) (bytes : List ℕ) (p : ClientProgram)
    (result : ClientProgram × Option ℕ) : Type 0 where
  pub k : ℕ
  pub bound : k < rounds
  pub earlier : (j : ℕ) → j < k → connected_to (target total p j) p.clients ≡ false
  pub here : connected_to (target total p k) p.clients ≡ true
  pub sent : result ≡ (send_through bytes (at (target total p k) p), some (target total p k))

-- No replica is connected, and nothing is sent.
pub record AllDown (total rounds : ℕ) (p : ClientProgram) (result : ClientProgram × Option ℕ)
    : Type 0 where
  pub down : (j : ℕ) → j < rounds → connected_to (target total p j) p.clients ≡ false
  pub unsent : result ≡ (at (target total p rounds) p, none)

target-advance :
    (total : ℕ) (p : ClientProgram) (k : ℕ)
    → target total (advance_to_next_replica total p) k ≡ target total p (suc k)
unfolding advance_to_next_replica
target-advance total p k =
    mod-add-mod (p.current_target_replica_id + 1) total k ∙ ap (λ (n : ℕ). n % total) (omega arith)

target_zero :
    (total : ℕ) (p : ClientProgram)
    → p.current_target_replica_id < total
    → target total p 0 ≡ p.current_target_replica_id
target_zero total p h = ap (λ (n : ℕ). n % total) (omega arith) ∙ mod-eq_of_lt h

module _ (total : ℕ) (bytes : List ℕ) where
  attempts_first :
      (rounds : ℕ) (p : ClientProgram)
      → p.current_target_replica_id < total
      → connected_to p.current_target_replica_id p.clients ≡ true
      → SentTo total (suc rounds) bytes p (attempts (suc rounds) total bytes p)
  unfolding attempts
  attempts_first rounds p h e =
      let z = target_zero total p h in
      record {
        k = 0;
        bound = omega arith;
        earlier = λ j l. absurd (omega arith);
        here = rw z e;
        sent = rw (e, z, attempts);
      }

  before_all :
      (p : ClientProgram) (k : ℕ)
      → p.current_target_replica_id < total
      → connected_to p.current_target_replica_id p.clients ≡ false
      → ((j : ℕ)
          → j < k
          → connected_to (target total (advance_to_next_replica total p) j) p.clients ≡ false)
      → (j : ℕ) → j < suc k
      → connected_to (target total p j) p.clients ≡ false
  before_all p k h e f zero l = rw (target_zero total p h) e
  before_all p k h e f (suc j) l =
      subst (λ t. connected_to t p.clients ≡ false) (target-advance total p j) (f j (omega arith))

  attempts_lem :
      (rounds : ℕ) (p : ClientProgram)
      → p.current_target_replica_id < total
      → let result = attempts rounds total bytes p in
        SentTo total rounds bytes p result ⊎ AllDown total rounds p result
  unfolding attempts advance_to_next_replica
  attempts_lem zero p h =
      inr (record {
        down = λ j l. absurd (omega arith);
        unsent = rw (target_zero total p h, attempts);
      })
  attempts_lem (suc rounds) p h =
      let next = advance_to_next_replica total p in
      elim (Bool-cases (connected_to p.current_target_replica_id p.clients)) [
        | inl e ↦ inl (attempts_first rounds p h e)
        | inr e ↦ elim (attempts_lem rounds next (omega arith)) [
          | inl s ↦ inl (record {
            k = suc s.k;
            bound = omega (arith, s.bound);
            earlier = before_all p s.k h e s.earlier;
            here = subst (λ t. connected_to t p.clients ≡ true) (target-advance total p s.k) s.here;
            sent =
                rw (e, attempts)
                  (s.sent
                    ∙ ap (λ t. (send_through bytes (at t p), some t)) (target-advance total p s.k));
          })
          | inr s ↦ inr (record {
            down = before_all p rounds h e s.down;
            unsent =
                rw (e, attempts)
                  (s.unsent ∙ ap (λ t. (at t p, none)) (target-advance total p rounds));
          })
        ]
      ]

-- Each replica is the target of one of the first `total` attempts.
reached_by :
    (total id : ℕ) (p : ClientProgram)
    → p.current_target_replica_id < total
    → id < total
    → (j : ℕ) × (j < total) × (target total p j ≡ id)
reached_by total id p h l =
    let cur = p.current_target_replica_id in
    elim (dec_lt id cur) [
      | yes before ↦
          let around : cur + (id + total - cur) ≡ id + total = omega arith in
          (
            id + total - cur,
            omega arith,
            ap (λ (n : ℕ). n % total) around ∙ add-mod_right id total ∙ mod-eq_of_lt l,
          )
      | no after ↦
          let ahead : cur + (id - cur) ≡ id = omega arith in
          (id - cur, omega arith, ap (λ (n : ℕ). n % total) ahead ∙ mod-eq_of_lt l)
    ]

-- All replicas are without a connection, and nothing has changed.
pub record NotSent (total : ℕ) (p : ClientProgram) (result : ClientProgram × Option ℕ)
    : Type 0 where
  pub all_down : (id : ℕ) → id < total → connected_to id p.clients ≡ false
  pub unchanged : result ≡ (p, none)

AllDown-NotSent :
    (total : ℕ) (p : ClientProgram) (result : ClientProgram × Option ℕ)
    → p.current_target_replica_id < total
    → AllDown total total p result
    → NotSent total p result
AllDown-NotSent total p result h d = record {
  all_down = λ id l.
      let (j, l', e) = reached_by total id p h l in
      subst (λ t. connected_to t p.clients ≡ false) e (d.down j l');
  unchanged =
      d.unsent
      ∙ ap (λ t. (at t p, none)) (add-mod_right p.current_target_replica_id total ∙ mod-eq_of_lt h);
}

-- The program after the number of the request has been taken.
abbrev pub next_request : ClientProgram → ClientProgram
next_request p = record p { next_request_number = inc32 p.next_request_number }

module _ (blake3 : Blake3) where
  -- A message with the next request number goes to the first connected replica from the current
  -- target on, in the order of the ring, which becomes the target. If no replica of the cluster is
  -- connected, the loop over the attempts ends where it began, and only the number is used up.
  pub send_message-SentTo :
      (msg : VsrMessage) (total_replicas : ℕ) (p : ClientProgram)
      → p.current_target_replica_id < total_replicas
      → let result = send_message blake3 msg total_replicas p in
        let bytes = serialize blake3 (numbered msg p) in
        SentTo total_replicas total_replicas bytes (next_request p) result
        ⊎ NotSent total_replicas (next_request p) result
  unfolding send_message
  send_message-SentTo msg total_replicas p h =
      elim (attempts_lem total_replicas (serialize blake3 (numbered msg p)) total_replicas
        (next_request p) h) [
          | inl s ↦ inl s
          | inr d ↦ inr (AllDown-NotSent total_replicas (next_request p) _ h d)
        ]
