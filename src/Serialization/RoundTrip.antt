-- ===== src/Serialization/RoundTrip.antt =====
-- The log and the payloads that carry it, written and read back.
use vsr_kv.Common.{
  ℕ, suc, ◌^◌, ◌≤◌, ◌<◌, ◌≡◌, sym, ◌∙◌, true, some, List, [], ◌∷◌, ◌++◌, map, foldl, append-nil,
  append_assoc, arith, length, All,
}
use native.Mathlib.Nat.{mod-eq_of_lt}
use vsr_kv.Common.Map.{nat_key}
use vsr_kv.Common.Map.Ascending.{Ascends, KeysBelow, KeysBelow-mono, insert_last}
use vsr_kv.Utilities.{U128, u128, u64, u32, u128_fits}
use vsr_kv.Message.Layout.{U128Fits}
use vsr_kv.Wire.Pod.{write_pod, read_pod-bytes}
use vsr_kv.Serialization.{
  LogEntry, Log, write_entry, read_entries, write_log_to_buffer, read_log_from_buffer,
  DoViewChangePayload, serialize_do_view_change, deserialize_do_view_change, serialize_start_view,
  deserialize_start_view, serialize_recovery_request, deserialize_recovery_request,
  RecoveryResponsePayload, serialize_recovery_response, deserialize_recovery_response,
}
use vsr_kv.Serialization.Entries.{
  EntryFits, strip, entry_bytes, write_entry-bytes, read_entry-bytes,
}

abbrev pub entries_bytes : Log → List ℕ
entries_bytes [] = []
entries_bytes (p ∷ log) = entry_bytes p ++ entries_bytes log

foldl-write_entry :
    (log : Log) (buffer : List ℕ) → foldl write_entry buffer log ≡ buffer ++ entries_bytes log
foldl-write_entry [] buffer = sym (append-nil buffer)
foldl-write_entry (p ∷ log) buffer =
    foldl-write_entry log (write_entry buffer p) ∙ simp (write_entry-bytes, append_assoc)

-- The log as the receiver has it: without the acknowledgements.
abbrev pub strip_all : Log → Log
strip_all = map strip

KeysBelow-snoc :
    (b k : ℕ) (e : LogEntry) (log : Log)
    → KeysBelow b log
    → b ≤ k
    → KeysBelow (suc k) (log ++ (k, e) ∷ [])
KeysBelow-snoc b k e [] h le = (omega arith, tt)
KeysBelow-snoc b k e (p ∷ log) h le = (omega arith, KeysBelow-snoc b k e log h.1 le)

read_entries-bytes :
    (es acc : Log) (b : ℕ) (rest : List ℕ)
    → All EntryFits es
    → Ascends b es
    → KeysBelow b acc
    → read_entries (length es) (entries_bytes es ++ rest) acc ≡ (true, acc ++ strip_all es)
unfolding read_entries
read_entries-bytes [] acc b rest f a k = rw (append-nil acc)
read_entries-bytes ((op_num, e) ∷ es) acc b rest f a k =
    rw
      (
        append_assoc (entry_bytes (op_num, e)) (entries_bytes es) rest,
        read_entry-bytes (op_num, e) (entries_bytes es ++ rest) f.0,
        insert_last op_num (strip (op_num, e)).1 acc (KeysBelow-mono acc a.0 k),
        read_entries-bytes es (acc ++ strip (op_num, e) ∷ []) (suc op_num) rest f.1 a.1
            (KeysBelow-snoc b op_num (strip (op_num, e)).1 acc k a.0),
        read_entries,
      )
      (simp append_assoc)

-- The keys ascend, and everything lies in the range of its type.
pub record LogFits (log : Log) : Type 0 where
  pub entries : All EntryFits log
  pub ascends : Ascends 0 log
  pub size : length log < 2 ^ 64

pub write_log_lem :
    (buffer : List ℕ) (log : Log)
    → write_log_to_buffer buffer log ≡ buffer ++ (u64.bytes (length log) ++ entries_bytes log)
unfolding write_log_to_buffer write_pod
write_log_lem buffer log =
    foldl-write_entry log (buffer ++ u64.bytes (length log))
    ∙ append_assoc buffer (u64.bytes (length log)) (entries_bytes log)

read_log-bytes :
    (log : Log)
    → LogFits log
    → read_log_from_buffer (u64.bytes (length log) ++ entries_bytes log) [] ≡ (true, strip_all log)
unfolding read_log_from_buffer
read_log-bytes log f =
    rw
      (
        read_pod-bytes u64 (length log) (entries_bytes log),
        mod-eq_of_lt f.size,
        read_log_from_buffer,
      )
      (rw (append-nil (entries_bytes log)) at
        (read_entries-bytes log [] 0 [] f.entries f.ascends tt))

-- A log that fits is read back whole, but for the acknowledgements.
pub read_log-write_log :
    (log : Log)
    → LogFits log
    → read_log_from_buffer (write_log_to_buffer [] log) [] ≡ (true, strip_all log)
read_log-write_log log f = rw (write_log_lem [] log) (read_log-bytes log f)

-- A DoViewChange payload whose normal view fits 32 bits and whose log fits its fields is
-- read back by a receiver whose own log is empty: the view is the sender's, and the log is
-- the sender's with the acknowledgements of every entry dropped.
pub deserialize-serialize_do_view_change :
    (p msg : DoViewChangePayload)
    → p.last_normal_view < 2 ^ 32
    → LogFits p.log
    → msg.log ≡ []
    → deserialize_do_view_change (serialize_do_view_change p) msg
      ≡ (true, record { last_normal_view = p.last_normal_view; log = strip_all p.log })
unfolding deserialize_do_view_change serialize_do_view_change write_pod
deserialize-serialize_do_view_change p msg v f e = rw (
  write_log_lem (u32.bytes p.last_normal_view) p.log,
  read_pod-bytes u32 p.last_normal_view _,
  mod-eq_of_lt v,
  e,
  read_log-bytes p.log f,
  deserialize_do_view_change,
)

pub deserialize-serialize_start_view :
    (log : Log)
    → LogFits log
    → deserialize_start_view (serialize_start_view log) [] ≡ (true, strip_all log)
unfolding deserialize_start_view serialize_start_view
deserialize-serialize_start_view log f = read_log-write_log log f

pub deserialize-serialize_recovery_request :
    (nonce : U128)
    → U128Fits nonce
    → deserialize_recovery_request (serialize_recovery_request nonce) ≡ some nonce
unfolding deserialize_recovery_request serialize_recovery_request write_pod
deserialize-serialize_recovery_request nonce f =
    rw (← append-nil (u128.bytes nonce), read_pod-bytes u128 nonce [], u128_fits nonce f.0 f.1)

-- A recovery response whose nonce fits 128 bits and whose log fits its fields is read back
-- by a receiver whose own log is empty: the nonce is the sender's, and the log is the
-- sender's with the acknowledgements of every entry dropped.
pub deserialize-serialize_recovery_response :
    (p msg : RecoveryResponsePayload)
    → U128Fits p.nonce
    → LogFits p.log
    → msg.log ≡ []
    → deserialize_recovery_response (serialize_recovery_response p) msg
      ≡ (true, record { nonce = p.nonce; log = strip_all p.log })
unfolding deserialize_recovery_response serialize_recovery_response write_pod
deserialize-serialize_recovery_response p msg v f e = rw (
  write_log_lem (u128.bytes p.nonce) p.log,
  read_pod-bytes u128 p.nonce _,
  u128_fits p.nonce v.0 v.1,
  e,
  read_log-bytes p.log f,
  deserialize_recovery_response,
)
