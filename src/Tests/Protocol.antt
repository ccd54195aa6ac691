-- ===== src/Tests/Protocol.antt =====
-- Reads of a connection.
use vsr_kv.Message.RoundTrip.{MessageFits}
use vsr_kv.Protocol.Oversized.{payload_sizes, length-serialize_start_view, start_view_too_large}
use vsr_kv.Replica.ViewChange.{start_view_message}
use vsr_kv.Serialization.{Log}
use vsr_kv.ReplicaState.{ReplicaState, new_state}
use vsr_kv.Common.{
  ℕ, ◌≡◌, refl, ap, ◌∙◌, inl, some, List, [], ◌∷◌, ◌++◌, append-nil, arith, take, drop, replicate,
  take-append-drop, zero, suc, sym, length, length-take_of_le,
}
use vsr_kv.Tests.Data.{set_request, toy_blake3, set_entry, new_replica}
use vsr_kv.Common.Map.{find, erase, nat_key}
use vsr_kv.Message.Layout.{header_pod}
use vsr_kv.Wire.Bytes.{of_bytes}
use vsr_kv.Message.Codec.{sealed, serialize}
use vsr_kv.Protocol.{ProtocolHandler, handle_raw_data}
use vsr_kv.Protocol.Stream.{stream, FrameFits, length-serialize}
use vsr_kv.Protocol.Delivery.{Fed, receive, receive-stream, from}
use vsr_kv.Protocol.Refusal.{Refused, handle_raw_data-Refused}

abbrev sent : List ℕ
sent = stream toy_blake3 (set_request ∷ set_request ∷ [])

abbrev quiet : ProtocolHandler
quiet = record { connection_buffers = []; received = []; closed = [] }

request-Fits : FrameFits set_request
request-Fits = record { fits = omega arith; limit = omega arith }

-- Two requests in two reads, the first of which ends inside a header.
receive-stream_example :
    Fed 5 quiet
      (sealed toy_blake3 set_request ∷ sealed toy_blake3 set_request ∷ [])
      []
      (receive toy_blake3 5 (take 150 sent ∷ drop 150 sent ∷ []) quiet)
unfolding find
receive-stream_example =
    receive-stream toy_blake3 5 (take 150 sent ∷ drop 150 sent ∷ [])
      (set_request ∷ set_request ∷ []) quiet (request-Fits, (request-Fits, tt))
      (ap (◌++◌ (take 150 sent)) (append-nil (drop 150 sent)) ∙ take-append-drop 150 sent) refl

zeros-Refused : Refused toy_blake3 (replicate 128 0)
unfolding header_pod of_bytes
zeros-Refused = record { header = omega arith; why = inl refl }

handle_raw_data-Refused_example :
    handle_raw_data toy_blake3
      (some 5)
      (stream toy_blake3 (set_request ∷ []) ++ replicate 128 0)
      quiet
    ≡ record {
      connection_buffers = [];
      received = from 5 (sealed toy_blake3 set_request ∷ []);
      closed = 5 ∷ [];
    }
unfolding find erase
handle_raw_data-Refused_example =
    handle_raw_data-Refused toy_blake3 5 (set_request ∷ []) (replicate 128 0) quiet
      (request-Fits, tt) zeros-Refused refl

-- A log of `n` entries with no payload.
sets : ℕ → Log
sets zero = []
sets (suc n) = (n, record (set_entry 1 []) { payload = [] }) ∷ sets n

sets_sizes : (n : ℕ) → (length (sets n) ≡ n) × (payload_sizes (sets n) ≡ 0)
unfolding sets
sets_sizes zero = (refl, refl)
sets_sizes (suc n) = let (a, b) = sets_sizes n in (omega arith, omega arith)

many : ReplicaState
many = record ((new_replica 0).state) { op = 2000; log = sets 2000 }

many-Fits : MessageFits (start_view_message many)
unfolding many start_view_message new_state
many-Fits = record {
  header = omega arith;
  size = omega (arith, length-serialize_start_view (sets 2000), sets_sizes 2000);
}

start_view_too_large_example :
    handle_raw_data toy_blake3
      (some 5)
      (take 128 (serialize toy_blake3 (start_view_message many)))
      quiet
    ≡ record { connection_buffers = []; received = []; closed = 5 ∷ [] }
unfolding many find erase
start_view_too_large_example =
    start_view_too_large toy_blake3 5 many
      (take 128 (serialize toy_blake3 (start_view_message many)))
      (drop 128 (serialize toy_blake3 (start_view_message many))) quiet many-Fits
      (omega (arith, sets_sizes 2000))
      (sym (take-append-drop 128 (serialize toy_blake3 (start_view_message many))))
      (omega (
        arith,
        length-serialize toy_blake3 (start_view_message many),
        length-take_of_le 128 (serialize toy_blake3 (start_view_message many)),
      ))
      refl
