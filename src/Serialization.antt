-- ===== src/Serialization.antt =====
-- server/replica_types.hpp, and the payloads of server/serialization.cpp,
-- server/view_change_messages.cpp and server/recovery_messages.cpp.

pub mod Entries
pub mod Ranges
pub mod Written
pub mod RoundTrip
use vsr_kv.Common.{
  ℕ, zero, suc, ◌+◌, ◌-◌, ◌*◌, ◌/◌, ◌%◌, ◌^◌, ◌≤◌, ◌<◌, max, ◌≡◌, refl, sym, ap, subst, ◌∙◌, ◌≢◌,
  ◌↔◌, ◌⊎◌, inl, inr, Bool, true, false, not, ◌&&◌, ◌||◌, Option, none, some, List, [], ◌∷◌, ◌++◌,
  map, foldl, append-nil, append_assoc, arith, ltb, leb, ◌==◌, if◌then◌else◌, ltb→lt, lt→ltb,
  le→ltb, ==_iff, ==_refl, Bool-cases, Option-cases, length, take, drop, replicate, All,
  length-append, length-drop, length-take_of_le, take-append, drop-append, take-append-drop,
  All-append,
}
use vsr_kv.Common.Map.{Map, insert, nat_key}
use vsr_kv.Utilities.{U128, u128, u64, u32}
use vsr_kv.Message.{Operation}
use vsr_kv.Message.Layout.{operation_pod}
use vsr_kv.Wire.Pod.{Pod, write_pod, read_pod}

pub record LogEntry : Type 0 where
  pub view : ℕ
  pub op_type : Operation
  pub client_id : U128
  pub request_num : ℕ
  pub payload : List ℕ
  pub prepare_ok_acks : List ℕ

pub record ClientTableEntry : Type 0 where
  pub request_number : ℕ
  pub executed : Bool
  pub result : List ℕ

-- The default member initialisers.
abbrev pub new_client_table_entry : ClientTableEntry
new_client_table_entry = record { request_number = 0; executed = false; result = [] }

abbrev pub Log : Type 0
Log = Map ℕ LogEntry

-- One round of the loop of `write_log_to_buffer`.
unfoldable pub write_entry : List ℕ → ℕ × LogEntry → List ℕ
unfolding write_pod
write_entry buffer (op_num, entry) =
    let buffer = write_pod u64 buffer op_num in
    let buffer = write_pod u32 buffer entry.view in
    let buffer = write_pod operation_pod buffer entry.op_type in
    let buffer = write_pod u128 buffer entry.client_id in
    let buffer = write_pod u32 buffer entry.request_num in
    let buffer = write_pod u64 buffer (length entry.payload) in buffer ++ entry.payload

unfoldable pub write_log_to_buffer : List ℕ → Log → List ℕ
unfolding write_entry
write_log_to_buffer buffer log = foldl write_entry (write_pod u64 buffer (length log)) log

infixl 5 ◌>>=◌
abbrev ◌>>=◌ {ℓ κ} : {A : Type ℓ} {B : Type κ} → Option A → (A → Option B) → Option B
none >>= f = none
some a >>= f = f a

-- `payload_size` bytes, if there are as many.
unfoldable pub read_bytes : ℕ → List ℕ → Option (List ℕ × List ℕ)
read_bytes size ptr = if ltb (length ptr) size then none else some (take size ptr, drop size ptr)

-- One round of the loop of `read_log_from_buffer`: the pair, and the rest of the input.
unfoldable pub read_entry : List ℕ → Option (ℕ × LogEntry × List ℕ)
unfolding read_bytes
read_entry ptr = do
  (op_num, ptr) ← read_pod u64 ptr
  (view, ptr) ← read_pod u32 ptr
  (op_type, ptr) ← read_pod operation_pod ptr
  (client_id, ptr) ← read_pod u128 ptr
  (request_num, ptr) ← read_pod u32 ptr
  (payload_size, ptr) ← read_pod u64 ptr
  (payload, ptr) ← read_bytes payload_size ptr
  some (
    op_num,
    record {
      view = view;
      op_type = op_type;
      client_id = client_id;
      request_num = request_num;
      payload = payload;
      prepare_ok_acks = [];
    },
    ptr,
  )

-- The rounds that are left, with the log read so far. The Boolean is the result; the log is
-- filled in as far as the input went, also where the result is `false`.
unfoldable pub read_entries : ℕ → List ℕ → Log → Bool × Log
read_entries zero ptr log = (true, log)
read_entries (suc n) ptr log = elim (read_entry ptr) [
  | none ↦ (false, log)
  | some (op_num, entry, rest) ↦ read_entries n rest (insert op_num entry log)
]

unfoldable pub read_log_from_buffer : List ℕ → Log → Bool × Log
read_log_from_buffer ptr log = elim (read_pod u64 ptr) [
  | none ↦ (false, log)
  | some (log_size, rest) ↦ read_entries log_size rest log
]

pub record DoViewChangePayload : Type 0 where
  pub last_normal_view : ℕ
  pub log : Log

unfoldable pub serialize_do_view_change : DoViewChangePayload → List ℕ
serialize_do_view_change p = write_log_to_buffer (write_pod u32 [] p.last_normal_view) p.log

unfoldable pub deserialize_do_view_change :
    List ℕ → DoViewChangePayload → Bool × DoViewChangePayload
deserialize_do_view_change bytes msg = elim (read_pod u32 bytes) [
  | none ↦ (false, msg)
  | some (last_normal_view, rest) ↦
      let (done, log) = read_log_from_buffer rest msg.log in
      (done, record { last_normal_view = last_normal_view; log = log })
]

-- `start_view_payload` is its log.
unfoldable pub serialize_start_view : Log → List ℕ
serialize_start_view log = write_log_to_buffer [] log

unfoldable pub deserialize_start_view : List ℕ → Log → Bool × Log
deserialize_start_view bytes msg = read_log_from_buffer bytes msg

-- `recovery_request_payload` is its nonce.
unfoldable pub serialize_recovery_request : U128 → List ℕ
serialize_recovery_request nonce = write_pod u128 [] nonce

unfoldable pub deserialize_recovery_request : List ℕ → Option U128
deserialize_recovery_request bytes = do (nonce, _) ← read_pod u128 bytes; some nonce

pub record RecoveryResponsePayload : Type 0 where
  pub nonce : U128
  pub log : Log

unfoldable pub serialize_recovery_response : RecoveryResponsePayload → List ℕ
serialize_recovery_response p = write_log_to_buffer (write_pod u128 [] p.nonce) p.log

unfoldable pub deserialize_recovery_response :
    List ℕ → RecoveryResponsePayload → Bool × RecoveryResponsePayload
deserialize_recovery_response bytes msg = elim (read_pod u128 bytes) [
  | none ↦ (false, msg)
  | some (nonce, rest) ↦
      let (done, log) = read_log_from_buffer rest msg.log in
      (done, record { nonce = nonce; log = log })
]
