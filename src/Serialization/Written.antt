-- ===== src/Serialization/Written.antt =====
-- What the serializers write is bytes.
use vsr_kv.Message.Ranges.{Bytes}
use vsr_kv.Common.{ℕ, List, length, All, [], ◌∷◌, foldl, All-append}
use vsr_kv.Common.Map.{nat_key}
use vsr_kv.Utilities.{u128, u64, u32}
use vsr_kv.Message.Layout.{operation_byte, operation_pod}
use vsr_kv.Wire.Bytes.{to_bytes-IsByte, IsByte}
use vsr_kv.Wire.Pod.{Pod, write_pod}
use vsr_kv.Serialization.{
  write_log_to_buffer, write_pod, Operation, U128, write_entry, LogEntry, Log, DoViewChangePayload,
  RecoveryResponsePayload, serialize_do_view_change, serialize_start_view,
  serialize_recovery_response, serialize_recovery_request,
}
use vsr_kv.Serialization.Ranges.{EntryInRange, LogInRange}

write_pod-Bytes :
    {T : Type 0} (t : Pod T) (buffer : List ℕ) (v : T)
    → Bytes buffer
    → Bytes (t.bytes v)
    → Bytes (write_pod t buffer v)
unfolding write_pod
write_pod-Bytes t buffer v b c = All-append IsByte buffer (t.bytes v) b c

u128-Bytes : (v : U128) → Bytes (u128.bytes v)
unfolding u128
u128-Bytes v =
    All-append IsByte (u64.bytes v.high) (u64.bytes v.low) (to_bytes-IsByte 8 v.high)
      (to_bytes-IsByte 8 v.low)

operation-Bytes : (o : Operation) → Bytes (operation_pod.bytes o)
unfolding operation_pod
operation-Bytes o = to_bytes-IsByte 1 (operation_byte o)

write_entry-Bytes :
    (buffer : List ℕ) (p : ℕ × LogEntry)
    → Bytes buffer
    → Bytes p.1.payload
    → Bytes (write_entry buffer p)
unfolding write_entry
write_entry-Bytes buffer (k, e) b c =
    All-append IsByte _ e.payload
      (write_pod-Bytes u64 _ (length e.payload)
        (write_pod-Bytes u32 _ e.request_num
          (write_pod-Bytes u128 _ e.client_id
            (write_pod-Bytes operation_pod _ e.op_type
              (write_pod-Bytes u32 _ e.view (write_pod-Bytes u64 buffer k b (to_bytes-IsByte 8 k))
                (to_bytes-IsByte 4 e.view))
              (operation-Bytes e.op_type))
            (u128-Bytes e.client_id))
          (to_bytes-IsByte 4 e.request_num))
        (to_bytes-IsByte 8 (length e.payload)))
      c

write_entries-Bytes :
    (log : Log) (buffer : List ℕ)
    → All EntryInRange log
    → Bytes buffer
    → Bytes (foldl write_entry buffer log)
write_entries-Bytes [] buffer l b = b
write_entries-Bytes (p ∷ log) buffer l b =
    write_entries-Bytes log (write_entry buffer p) l.1 (write_entry-Bytes buffer p b l.0.payload)

write_log-Bytes :
    (buffer : List ℕ) (log : Log)
    → LogInRange log
    → Bytes buffer
    → Bytes (write_log_to_buffer buffer log)
unfolding write_log_to_buffer
write_log-Bytes buffer log l b =
    write_entries-Bytes log (write_pod u64 buffer (length log)) l.entries
      (write_pod-Bytes u64 buffer (length log) b (to_bytes-IsByte 8 (length log)))

pub serialize_start_view-Bytes : (log : Log) → LogInRange log → Bytes (serialize_start_view log)
unfolding serialize_start_view
serialize_start_view-Bytes log l = write_log-Bytes [] log l tt

pub serialize_do_view_change-Bytes :
    (p : DoViewChangePayload) → LogInRange p.log → Bytes (serialize_do_view_change p)
unfolding serialize_do_view_change
serialize_do_view_change-Bytes p l =
    write_log-Bytes _ p.log l
      (write_pod-Bytes u32 [] p.last_normal_view tt (to_bytes-IsByte 4 p.last_normal_view))

pub serialize_recovery_response-Bytes :
    (p : RecoveryResponsePayload) → LogInRange p.log → Bytes (serialize_recovery_response p)
unfolding serialize_recovery_response
serialize_recovery_response-Bytes p l =
    write_log-Bytes _ p.log l (write_pod-Bytes u128 [] p.nonce tt (u128-Bytes p.nonce))

pub serialize_recovery_request-Bytes : (nonce : U128) → Bytes (serialize_recovery_request nonce)
unfolding serialize_recovery_request
serialize_recovery_request-Bytes nonce = write_pod-Bytes u128 [] nonce tt (u128-Bytes nonce)
