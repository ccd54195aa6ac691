-- ===== src/Replica/Invariant/Recovery.antt =====
-- Recovery keeps the invariant.
use vsr_kv.Message.Ranges.{InRange}
use vsr_kv.Common.{
  ℕ, zero, suc, ◌+◌, ◌*◌, ◌/◌, ◌%◌, ◌^◌, ◌≤◌, ◌<◌, max, inl, inr, List, [], ◌∷◌, ◌++◌, foldl, arith,
  ltb, if◌then◌else◌, Bool-cases, Option-cases, length, All, All-append,
}
use Prim.Native.Nat.{bit_or, bit_or-bitwise, digits}
use vsr_kv.Common.Map.{nat_key}
use vsr_kv.Utilities.{U128, zero_u128, u128_eq}
use vsr_kv.Message.{VsrMessage}
use vsr_kv.Message.Layout.{U128Fits}
use vsr_kv.Serialization.{deserialize_recovery_response, deserialize_recovery_request}
use vsr_kv.Serialization.Ranges.{LogInRange-nil, deserialize_recovery_response-InRange}
use vsr_kv.Serialization.Written.{
  serialize_recovery_response-Bytes, serialize_recovery_request-Bytes,
}
use vsr_kv.ReplicaState.{ReplicaState, is_recovery}
use vsr_kv.Replica.{Replica, InboundMessage, Env, with_state}
use vsr_kv.Replica.Recovery.{
  generate_nonce, recovery_message, initiate_recovery, recovery_response_message,
  handle_recovery_request, better_response, response_log, adopt_response, finish_recovery,
  collect_response, handle_recovery_response,
}
use vsr_kv.Replica.Invariant.{StateInv, Inv, emit-Inv}
use vsr_kv.Replica.Invariant.Execute.{execute_commited_ops-Inv}
use vsr_kv.Replica.Invariant.StartView.{note_request-ResultBytes}

-- `a | b` is at most `a + b`, by its binary digits.
abbrev or_digits : ℕ → ℕ → ℕ → ℕ
or_digits n a b = digits (λ b. b) max n a b

or_digits-le : (n a b : ℕ) → a ≤ n → or_digits n a b ≤ a + b
or_digits-le zero a b h = omega arith
or_digits-le (suc n) zero b h = omega arith
or_digits-le (suc n) (suc a) b h = omega (arith, or_digits-le n (suc a / 2) (b / 2) (omega arith))

bit_or-le-add : (a b : ℕ) → bit_or a b ≤ a + b
bit_or-le-add a b = omega (arith, bit_or-bitwise a b, or_digits-le a a b (omega arith))

generate_nonce_Fits :
    (env : Env) (id counter : ℕ) → counter < 2 ^ 32 → U128Fits (generate_nonce env id counter)
unfolding generate_nonce
generate_nonce_Fits env id counter h =
    (omega arith, omega (arith, bit_or-le-add (id * 2 ^ 32 % 2 ^ 64) counter))

pub initiate_recovery-Inv : (env : Env) (r : Replica) → Inv r → Inv (initiate_recovery env r)
unfolding initiate_recovery recovery_message
initiate_recovery-Inv env r v =
    let nonce = generate_nonce env r.state.id r.nonce_counter in
    let fits = generate_nonce_Fits env r.state.id r.nonce_counter v.nonce_counter in
    elim (Bool-cases (is_recovery r.state.status)) [
      | inl e ↦ rw e v
      | inr e ↦ rw e (
          emit-Inv _ _
            (record { header = ground arith; payload = serialize_recovery_request-Bytes nonce })
            (ground (arith, fits)))
    ]

recovery_response-InRange :
    (nonce : U128) (s : ReplicaState) → StateInv s → InRange (recovery_response_message nonce s)
unfolding recovery_response_message
recovery_response-InRange nonce s v = record {
  header = ground arith;
  payload = serialize_recovery_response-Bytes (record { nonce = nonce; log = s.log }) v.log;
}

pub handle_recovery_request-Inv :
    (inbound : InboundMessage) (r : Replica) → Inv r → Inv (handle_recovery_request inbound r)
unfolding handle_recovery_request
handle_recovery_request-Inv inbound r v =
    elim (Option-cases (deserialize_recovery_request inbound.message.payload)) [
      | inl e ↦ rw (e, handle_recovery_request) v
      | inr (nonce, e) ↦
          rw (e, handle_recovery_request)
            (emit-Inv _ r (recovery_response-InRange nonce r.state v.state) v)
    ]

better_response-InRange :
    (best m : VsrMessage) → InRange best → InRange m → InRange (better_response best m)
unfolding better_response
better_response-InRange best m f g = ground arith

best-InRange :
    (ms : List VsrMessage) (best : VsrMessage)
    → InRange best
    → All InRange ms
    → InRange (foldl better_response best ms)
best-InRange [] best f g = f
best-InRange (m ∷ ms) best f g =
    best-InRange ms (better_response best m) (better_response-InRange best m f g.0) g.1

finish_recovery-Inv :
    (env : Env) (best : VsrMessage) (r : Replica)
    → InRange best
    → Inv r
    → Inv (finish_recovery env best r)
unfolding finish_recovery adopt_response response_log
finish_recovery-Inv env best r f v =
    let log =
      deserialize_recovery_response-InRange best.payload (record { nonce = zero_u128; log = [] })
        f.payload LogInRange-nil in
    let table = note_request-ResultBytes (response_log best) [] tt in
    let adopted : Inv (adopt_response env best r) = ground (arith, f.header, log, table) in
    let executed = execute_commited_ops-Inv (adopt_response env best r) adopted in
    ground (arith, executed)

collected-Inv :
    (env : Env) (responses : List VsrMessage) (r : Replica)
    → All InRange responses
    → Inv r
    → Inv (
        let waiting = with_state (record (r.state) { recovery_responses = responses }) r in
        elim responses [
          | [] ↦ waiting
          | first ∷ rest ↦
              if ltb (length (first ∷ rest)) (r.state.fault_tolerance_f + 1)
              then waiting
              else finish_recovery env (foldl better_response first rest) waiting
        ])
collected-Inv env [] r f v = ground arith
collected-Inv env (first ∷ rest) r f v =
    let waiting : Replica = with_state (record (r.state) { recovery_responses = first ∷ rest }) r in
    let kept : Inv waiting = ground arith in
    elim (Bool-cases (ltb (length (first ∷ rest)) (r.state.fault_tolerance_f + 1))) [
      | inl q ↦ rw q kept
      | inr q ↦ rw q (finish_recovery-Inv env _ waiting (best-InRange rest first f.0 f.1) kept)
    ]

collect_response-Inv :
    (env : Env) (m : VsrMessage) (r : Replica) → InRange m → Inv r → Inv (collect_response env m r)
unfolding collect_response
collect_response-Inv env m r f v =
    collected-Inv env (r.state.recovery_responses ++ (m ∷ [])) r
      (All-append InRange r.state.recovery_responses (m ∷ []) v.state.recovery_responses (f, tt)) v

pub handle_recovery_response-Inv :
    (env : Env) (inbound : InboundMessage) (r : Replica)
    → InRange inbound.message
    → Inv r
    → Inv (handle_recovery_response env inbound r)
unfolding handle_recovery_response
handle_recovery_response-Inv env inbound r f v =
    let read =
      deserialize_recovery_response inbound.message.payload
        (record { nonce = zero_u128; log = [] }) in
    elim (Bool-cases (read.0)) [
      | inr e ↦ rw e v
      | inl e ↦ elim (Bool-cases (u128_eq read.1.nonce r.state.recovery_nonce)) [
        | inr d ↦ rw (e, d) v
        | inl d ↦ rw (e, d) (collect_response-Inv env inbound.message r f v)
      ]
    ]
