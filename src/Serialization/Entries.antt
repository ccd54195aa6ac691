-- ===== src/Serialization/Entries.antt =====
-- One log entry, and then the log, through `write_log_to_buffer` and `read_log_from_buffer`.
use vsr_kv.Common.{
  ℕ, ◌^◌, ◌<◌, ◌≡◌, refl, some, List, [], ◌++◌, append_assoc, arith, le→ltb, length, length-append,
  take-append, drop-append, ◌+◌,
}
use native.Mathlib.Nat.{mod-eq_of_lt}
use vsr_kv.Common.Map.{nat_key}
use vsr_kv.Utilities.{u128, u64, u32, u128_fits}
use vsr_kv.Message.Layout.{operation_pod, OperationFits, operation_wrap, U128Fits}
use vsr_kv.Wire.Pod.{read_pod-bytes}
use vsr_kv.Serialization.{LogEntry, write_entry, read_entry, read_bytes}

-- The members of an entry, and its key, lie in the range of their types.
pub record EntryFits (p : ℕ × LogEntry) : Type 0 where
  pub op_num : p.0 < 2 ^ 64
  pub view : p.1.view < 2 ^ 32
  pub op_type : OperationFits p.1.op_type
  pub client_id : U128Fits p.1.client_id
  pub request_num : p.1.request_num < 2 ^ 32
  pub payload : length p.1.payload < 2 ^ 64

-- What the wire carries of an entry: all but the acknowledgements.
abbrev pub strip : ℕ × LogEntry → ℕ × LogEntry
strip (k, e) = (k, record e { prepare_ok_acks = [] })

-- The bytes of one entry.
pub entry_bytes : ℕ × LogEntry → List ℕ
entry_bytes (k, e) =
    u64.bytes k
    ++ (u32.bytes e.view
        ++ (operation_pod.bytes e.op_type
            ++ (u128.bytes e.client_id
                ++ (u32.bytes e.request_num ++ (u64.bytes (length e.payload) ++ e.payload)))))

pub write_entry-bytes :
    (buffer : List ℕ) (p : ℕ × LogEntry) → write_entry buffer p ≡ buffer ++ entry_bytes p
unfolding write_entry entry_bytes
write_entry-bytes buffer (k, e) = simp append_assoc

read_bytes-append : (xs rest : List ℕ) → read_bytes (length xs) (xs ++ rest) ≡ some (xs, rest)
unfolding read_bytes
read_bytes-append xs rest = rw (
  le→ltb (length (xs ++ rest)) (length xs) (omega (arith, length-append xs rest)),
  take-append (length xs) xs rest refl,
  drop-append (length xs) xs rest refl,
)

pub read_entry-bytes :
    (p : ℕ × LogEntry) (rest : List ℕ)
    → EntryFits p
    → read_entry (entry_bytes p ++ rest) ≡ some ((strip p).0, (strip p).1, rest)
unfolding read_entry entry_bytes
read_entry-bytes (k, e) rest f = simp (
  append_assoc,
  read_pod-bytes,
  mod-eq_of_lt f.op_num,
  mod-eq_of_lt f.view,
  operation_wrap e.op_type f.op_type,
  u128_fits e.client_id f.client_id.0 f.client_id.1,
  mod-eq_of_lt f.request_num,
  mod-eq_of_lt f.payload,
  read_bytes-append,
)

pub length-entry_bytes : (p : ℕ × LogEntry) → length (entry_bytes p) ≡ 41 + length p.1.payload
unfolding entry_bytes operation_pod u128
length-entry_bytes (k, e) = omega (
  arith,
  length-append (u64.bytes k) _,
  length-append (u32.bytes e.view) _,
  length-append (operation_pod.bytes e.op_type) _,
  length-append (u128.bytes e.client_id) _,
  length-append (u32.bytes e.request_num) _,
  length-append (u64.bytes (length e.payload)) e.payload,
  u64.length-bytes k,
  u32.length-bytes e.view,
  operation_pod.length-bytes e.op_type,
  u128.length-bytes e.client_id,
  u32.length-bytes e.request_num,
  u64.length-bytes (length e.payload),
)
