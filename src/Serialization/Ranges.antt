-- ===== src/Serialization/Ranges.antt =====
-- What a log holds that was read from bytes lies in range, and what is written is bytes.
use vsr_kv.Common.Map.Every.{insert-All}
use vsr_kv.Common.{
  ltb_false→le, ℕ, zero, suc, ◌^◌, ◌<◌, ◌≡◌, subst, inl, inr, Option, none, some, List, arith, ltb,
  Bool-cases, length, take, All, length-take_of_le, [], Option-cases, All-take, All-drop,
}
use vsr_kv.Common.Map.{insert, nat_key}
use vsr_kv.Common.Map.Ascending.{insert-Ascends, Ascends}
use vsr_kv.Utilities.{u128, u64, u32}
use vsr_kv.Message.Layout.{operation_pod, OperationFits, U128Fits}
use vsr_kv.Common.{All-take, All-drop, ltb_false→le}
use vsr_kv.Wire.Bytes.{IsByte}
use vsr_kv.Message.Ranges.{Bytes, Reads, uint-Reads, operation-Reads, u128-Reads}
use vsr_kv.Wire.Pod.{Pod, read_pod}
use vsr_kv.Serialization.{
  read_entries, read_log_from_buffer, U128, ◌>>=◌, LogEntry, Log, read_bytes, read_entry,
  DoViewChangePayload, RecoveryResponsePayload, deserialize_do_view_change, deserialize_start_view,
  deserialize_recovery_response, deserialize_recovery_request,
}
use vsr_kv.Serialization.Entries.{EntryFits}

pub record EntryInRange (p : ℕ × LogEntry) : Type 0 where
  pub fits : EntryFits p
  pub payload : Bytes p.1.payload

-- The keys ascend, and every entry lies in the range of its type.
pub record LogInRange (log : Log) : Type 0 where
  pub entries : All EntryInRange log
  pub ascends : Ascends 0 log

-- A result, if there is one, satisfies `P`.
abbrev Ensures : {A : Type 0} → (A → Type 0) → Option A → Type 0
Ensures P none = Unit
Ensures P (some a) = P a

Ensures-bind :
    {A B : Type 0} (P : A → Type 0) (Q : B → Type 0) (m : Option A) (f : A → Option B)
    → Ensures P m
    → ((a : A) → P a → Ensures Q (f a))
    → Ensures Q (m >>= f)
Ensures-bind P Q none f h k = tt
Ensures-bind P Q (some a) f h k = k a h

-- A value, and the bytes that are left.
abbrev Value : {T : Type 0} → (T → Type 0) → T × List ℕ → Type 0
Value P r = P r.0 × Bytes r.1

read_pod-Ensures :
    {T : Type 0} (t : Pod T) (P : T → Type 0) (ptr : List ℕ)
    → Reads t P
    → Bytes ptr
    → Ensures (Value P) (read_pod t ptr)
unfolding read_pod
read_pod-Ensures t P ptr reads b = elim (Bool-cases (ltb (length ptr) t.size)) [
  | inl e ↦ rw e tt
  | inr e ↦ rw e (
    reads (take t.size ptr) (All-take IsByte t.size ptr b)
        (length-take_of_le t.size ptr (ltb_false→le (length ptr) t.size e)),
    All-drop IsByte t.size ptr b,
  )
]

read_bytes-Ensures :
    (size : ℕ) (ptr : List ℕ)
    → size < 2 ^ 64
    → Bytes ptr
    → Ensures (Value (λ bs. (length bs < 2 ^ 64) × Bytes bs)) (read_bytes size ptr)
unfolding read_bytes
read_bytes-Ensures size ptr h b = elim (Bool-cases (ltb (length ptr) size)) [
  | inl e ↦ rw e tt
  | inr e ↦ rw e (
    (
      omega (arith, length-take_of_le size ptr (ltb_false→le (length ptr) size e)),
      All-take IsByte size ptr b,
    ),
    All-drop IsByte size ptr b,
  )
]

-- An entry that was read, with the bytes that are left.
abbrev EntryRead : ℕ × LogEntry × List ℕ → Type 0
EntryRead (op_num, entry, rest) = EntryInRange (op_num, entry) × Bytes rest

read_entry-InRange : (ptr : List ℕ) → Bytes ptr → Ensures EntryRead (read_entry ptr)
unfolding read_entry
read_entry-InRange ptr b =
    Ensures-bind (Value (λ v. v < 256 ^ 8)) EntryRead _ _
      (read_pod-Ensures u64 _ ptr (uint-Reads 8) b)
      λ (op_num, p1) (f1, b1).
        Ensures-bind (Value (λ v. v < 256 ^ 4)) EntryRead _ _
          (read_pod-Ensures u32 _ p1 (uint-Reads 4) b1)
          λ (view, p2) (f2, b2).
            Ensures-bind (Value OperationFits) EntryRead _ _
              (read_pod-Ensures operation_pod _ p2 operation-Reads b2)
              λ (op_type, p3) (f3, b3).
                Ensures-bind (Value U128Fits) EntryRead _ _
                  (read_pod-Ensures u128 _ p3 u128-Reads b3)
                  λ (client_id, p4) (f4, b4).
                    Ensures-bind (Value (λ v. v < 256 ^ 4)) EntryRead _ _
                      (read_pod-Ensures u32 _ p4 (uint-Reads 4) b4)
                      λ (request_num, p5) (f5, b5).
                        Ensures-bind (Value (λ v. v < 256 ^ 8)) EntryRead _ _
                          (read_pod-Ensures u64 _ p5 (uint-Reads 8) b5)
                          λ (payload_size, p6) (f6, b6).
                            Ensures-bind (Value (λ bs. (length bs < 2 ^ 64) × Bytes bs)) EntryRead _
                              _ (read_bytes-Ensures payload_size p6 f6 b6)
                              λ (payload, p7) (f7, b7). (
                                record {
                                  fits = record {
                                    op_num = f1;
                                    view = f2;
                                    op_type = f3;
                                    client_id = f4;
                                    request_num = f5;
                                    payload = f7.0;
                                  };
                                  payload = f7.1;
                                },
                                b7,
                              )

pub LogInRange-nil : LogInRange []
LogInRange-nil = record { entries = tt; ascends = tt }

pub insert-LogInRange :
    (op_num : ℕ) (entry : LogEntry) (log : Log)
    → EntryInRange (op_num, entry)
    → LogInRange log
    → LogInRange (insert op_num entry log)
insert-LogInRange op_num entry log e l = record {
  entries = insert-All EntryInRange op_num entry log e l.entries;
  ascends = insert-Ascends 0 op_num entry log (omega arith) l.ascends;
}

read_entries-InRange :
    (n : ℕ) (ptr : List ℕ) (log : Log)
    → Bytes ptr
    → LogInRange log
    → LogInRange (read_entries n ptr log).1
unfolding read_entries
read_entries-InRange zero ptr log b l = l
read_entries-InRange (suc n) ptr log b l = elim (Option-cases (read_entry ptr)) [
  | inl e ↦ rw (e, read_entries) l
  | inr ((op_num, entry, rest), e) ↦
      let r = subst (Ensures EntryRead) e (read_entry-InRange ptr b) in
      rw (e, read_entries)
        (read_entries-InRange n rest (insert op_num entry log) r.1
          (insert-LogInRange op_num entry log r.0 l))
]

pub read_log-InRange :
    (ptr : List ℕ) (log : Log)
    → Bytes ptr
    → LogInRange log
    → LogInRange (read_log_from_buffer ptr log).1
unfolding read_log_from_buffer
read_log-InRange ptr log b l = elim (Option-cases (read_pod u64 ptr)) [
  | inl e ↦ rw (e, read_log_from_buffer) l
  | inr ((log_size, rest), e) ↦
      let r =
        subst (Ensures (Value (λ (v : ℕ). v < 256 ^ 8))) e
          (read_pod-Ensures u64 _ ptr (uint-Reads 8) b) in
      rw (e, read_log_from_buffer) (read_entries-InRange log_size rest log r.1 l)
]

-- Payloads that are read, whether or not the input was whole.
pub record VotePayload (p : DoViewChangePayload) : Type 0 where
  pub last_normal_view : p.last_normal_view < 2 ^ 32
  pub log : LogInRange p.log

pub deserialize_do_view_change-InRange :
    (bytes : List ℕ) (msg : DoViewChangePayload)
    → Bytes bytes
    → VotePayload msg
    → VotePayload (deserialize_do_view_change bytes msg).1
unfolding deserialize_do_view_change
deserialize_do_view_change-InRange bytes msg b v = elim (Option-cases (read_pod u32 bytes)) [
  | inl e ↦ rw (e, deserialize_do_view_change) v
  | inr ((view, rest), e) ↦
      let r =
        subst (Ensures (Value (λ (v : ℕ). v < 256 ^ 4))) e
          (read_pod-Ensures u32 _ bytes (uint-Reads 4) b) in
      rw (e, deserialize_do_view_change)
        (record { last_normal_view = r.0; log = read_log-InRange rest msg.log r.1 v.log })
]

pub deserialize_start_view-InRange :
    (bytes : List ℕ) (msg : Log)
    → Bytes bytes
    → LogInRange msg
    → LogInRange (deserialize_start_view bytes msg).1
unfolding deserialize_start_view
deserialize_start_view-InRange bytes msg b l = read_log-InRange bytes msg b l

pub deserialize_recovery_response-InRange :
    (bytes : List ℕ) (msg : RecoveryResponsePayload)
    → Bytes bytes
    → LogInRange msg.log
    → LogInRange (deserialize_recovery_response bytes msg).1.log
unfolding deserialize_recovery_response
deserialize_recovery_response-InRange bytes msg b l = elim (Option-cases (read_pod u128 bytes)) [
  | inl e ↦ rw (e, deserialize_recovery_response) l
  | inr ((nonce, rest), e) ↦
      let r = subst (Ensures (Value U128Fits)) e (read_pod-Ensures u128 _ bytes u128-Reads b) in
      rw (e, deserialize_recovery_response) (read_log-InRange rest msg.log r.1 l)
]

pub deserialize_recovery_request-InRange :
    (bytes : List ℕ) (nonce : U128)
    → Bytes bytes
    → deserialize_recovery_request bytes ≡ some nonce
    → U128Fits nonce
unfolding deserialize_recovery_request
deserialize_recovery_request-InRange bytes nonce b h = elim (Option-cases (read_pod u128 bytes)) [
  | inl e ↦ cc (e, h)
  | inr ((n, rest), e) ↦
      let r = subst (Ensures (Value U128Fits)) e (read_pod-Ensures u128 _ bytes u128-Reads b) in
      let same : n ≡ nonce = cc (e, h) in subst U128Fits same (r.0)
]
