-- ===== src/Protocol/Oversized.antt =====
-- Messages over the limit of 64 KB: the log of a view change grows past it.
use vsr_kv.Common.{
  ℕ, ◌+◌, ◌*◌, ◌≤◌, ◌<◌, ◌≡◌, sym, ap, ◌∙◌, inl, true, some, List, [], ◌∷◌, ◌++◌, append-nil, arith,
  length, length-append,
}
use vsr_kv.Common.Map.{erase, nat_key}
use vsr_kv.Utilities.{u64}
use vsr_kv.Message.{VsrMessage}
use vsr_kv.Message.Layout.{header_size}
use vsr_kv.Message.Checksum.{Blake3}
use vsr_kv.Message.Codec.{serialize}
use vsr_kv.Message.RoundTrip.{MessageFits}
use vsr_kv.Serialization.{Log, serialize_start_view}
use vsr_kv.Serialization.Entries.{entry_bytes, length-entry_bytes}
use vsr_kv.Serialization.RoundTrip.{entries_bytes, write_log_lem}
use vsr_kv.ReplicaState.{ReplicaState}
use vsr_kv.Replica.ViewChange.{start_view_message}
use vsr_kv.Protocol.{ProtocolHandler, buffer_of, handle_raw_data, max_message_size}
use vsr_kv.Protocol.Frames.{bad_size, expected_size, expected_size-append}
use vsr_kv.Protocol.Stream.{expected_size-serialize}
use vsr_kv.Protocol.Refusal.{Refused, handle_raw_data-Refused}

over_limit : (size : ℕ) → max_message_size < size → bad_size size ≡ true
over_limit size h = ground arith

module _ (blake3 : Blake3) where
  oversized-Refused :
      (msg : VsrMessage) (first rest : List ℕ)
      → MessageFits msg
      → max_message_size < header_size + length msg.payload
      → serialize blake3 msg ≡ first ++ rest
      → header_size ≤ length first
      → Refused blake3 first
  oversized-Refused msg first rest f h e n = record {
    header = n;
    why = inl (
        ap bad_size (
          sym (expected_size-append blake3 first rest n)
          ∙ ap expected_size (sym e)
          ∙ expected_size-serialize blake3 msg f)
        ∙ over_limit (header_size + length msg.payload) h);
  }

  -- A message that is over the limit of 64 KB is never delivered: a connection whose buffer is
  -- empty is closed by the first part of its bytes, if that holds the header.
  pub oversized_closes :
      (socket_fd : ℕ) (msg : VsrMessage) (first rest : List ℕ) (p : ProtocolHandler)
      → MessageFits msg
      → max_message_size < header_size + length msg.payload
      → serialize blake3 msg ≡ first ++ rest
      → header_size ≤ length first
      → buffer_of socket_fd p.connection_buffers ≡ []
      → handle_raw_data blake3 (some socket_fd) first p ≡ record {
        connection_buffers = erase socket_fd p.connection_buffers;
        received = p.received;
        closed = p.closed ++ (socket_fd ∷ []);
      }
  oversized_closes socket_fd msg first rest p f h e n b = rw (append-nil p.received) at (
      handle_raw_data-Refused blake3 socket_fd [] first p tt
        (oversized-Refused msg first rest f h e n) b)

-- The size of a log on the wire: 41 bytes and the payload for each entry.
abbrev pub payload_sizes : Log → ℕ
payload_sizes [] = 0
payload_sizes ((op_num, entry) ∷ log) = length entry.payload + payload_sizes log

length-entries_bytes :
    (log : Log) → length (entries_bytes log) ≡ 41 * length log + payload_sizes log
length-entries_bytes [] = omega arith
length-entries_bytes (p ∷ log) = omega (
  arith,
  length-append (entry_bytes p) (entries_bytes log),
  length-entry_bytes p,
  length-entries_bytes log,
)

pub length-serialize_start_view :
    (log : Log) → length (serialize_start_view log) ≡ 8 + 41 * length log + payload_sizes log
unfolding serialize_start_view
length-serialize_start_view log = omega (
  arith,
  ap length (write_log_lem [] log),
  length-append (u64.bytes (length log)) (entries_bytes log),
  u64.length-bytes (length log),
  length-entries_bytes log,
)

module _ (blake3 : Blake3) where
  -- The StartView message of a new primary whose log has 1,596 entries or more, if a `uint32_t`
  -- holds its size: whatever the entries are, a backup never gets the message, and closes the
  -- connection to the primary as soon as the header has arrived.
  pub start_view_too_large :
      (socket_fd : ℕ) (s : ReplicaState) (first rest : List ℕ) (p : ProtocolHandler)
      → MessageFits (start_view_message s)
      → 1596 ≤ length s.log
      → serialize blake3 (start_view_message s) ≡ first ++ rest
      → header_size ≤ length first
      → buffer_of socket_fd p.connection_buffers ≡ []
      → handle_raw_data blake3 (some socket_fd) first p ≡ record {
        connection_buffers = erase socket_fd p.connection_buffers;
        received = p.received;
        closed = p.closed ++ (socket_fd ∷ []);
      }
  start_view_too_large socket_fd s first rest p f n =
      oversized_closes blake3 socket_fd (start_view_message s) first rest p f
        (unfold start_view_message in omega (arith, length-serialize_start_view s.log))
