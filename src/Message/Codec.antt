-- ===== src/Message/Codec.antt =====
-- common/vsr_message.cpp: a message as bytes, sealed by two checksums.
use vsr_kv.Common.{
  ℕ, ◌+◌, ◌-◌, ◌%◌, ◌^◌, Bool, true, false, not, ◌&&◌, Option, none, some, List, [], ◌∷◌, ◌++◌, ltb,
  ◌==◌, if◌then◌else◌, length, take, drop,
}
use vsr_kv.Utilities.{zero_u128, u128_eq}
use vsr_kv.Message.{VsrMessage}
use vsr_kv.Message.Layout.{header_pod, header_size}
use vsr_kv.Message.Checksum.{Blake3, calculate_checksum_128}

abbrev is_empty : List ℕ → Bool
is_empty [] = true
is_empty (x ∷ xs) = false

-- The payload is assigned only where the size leaves room for one.
unfoldable pub received_payload : ℕ → List ℕ → List ℕ → List ℕ
received_payload size bytes before =
    let payload_size = size - header_size in
    if ltb 0 payload_size then drop header_size bytes else before

module _ (blake3 : Blake3) where
  unfoldable pub calculate_and_set_body_checksum : VsrMessage → VsrMessage
  calculate_and_set_body_checksum msg = record msg {
    header = record (msg.header) {
      checksum_body =
          if is_empty msg.payload then zero_u128 else calculate_checksum_128 blake3 msg.payload;
    };
  }

  unfoldable pub calculate_and_set_header_checksum : VsrMessage → VsrMessage
  calculate_and_set_header_checksum msg = record msg {
    header = record (msg.header) {
      checksum =
          calculate_checksum_128 blake3
            (header_pod.bytes (record (msg.header) { checksum = zero_u128 }));
    };
  }

  unfoldable pub verify_body_checksum : VsrMessage → Bool
  verify_body_checksum msg =
      if is_empty msg.payload
      then msg.header.checksum_body.high == 0 && msg.header.checksum_body.low == 0
      else u128_eq (calculate_checksum_128 blake3 msg.payload) msg.header.checksum_body

  unfoldable pub verify_header_checksum : VsrMessage → Bool
  verify_header_checksum msg =
      let header_copy = record (msg.header) { checksum = zero_u128 } in
      u128_eq (calculate_checksum_128 blake3 (header_pod.bytes header_copy)) msg.header.checksum

  -- The header as `serialize` completes it; the size is a `uint32_t`.
  unfoldable pub sealed : VsrMessage → VsrMessage
  unfolding calculate_and_set_body_checksum calculate_and_set_header_checksum
  sealed msg =
      let msg1 = calculate_and_set_body_checksum msg in
      let msg2 : VsrMessage = record msg1 {
        header = record (msg1.header) { size = (header_size + length msg1.payload) % 2 ^ 32 };
      } in
      calculate_and_set_header_checksum msg2

  unfoldable pub serialize : VsrMessage → List ℕ
  serialize msg =
      let msg_to_serialize = sealed msg in
      header_pod.bytes msg_to_serialize.header ++ msg_to_serialize.payload

  -- The tests on the message that has been filled in from `bytes`.
  unfoldable pub accept : List ℕ → VsrMessage → Option VsrMessage
  unfolding verify_header_checksum verify_body_checksum
  accept bytes msg =
      if not (msg.header.size == length bytes)
      then none
      else if not (verify_header_checksum msg)
      then none
      else if not (verify_body_checksum msg)
      then none
      else some msg

  -- `msg` is the object that is filled in; it is left to the caller only on success.
  unfoldable pub deserialize : List ℕ → VsrMessage → Option VsrMessage
  unfolding accept received_payload
  deserialize bytes msg =
      let header = header_pod.value (take header_size bytes) in
      if ltb (length bytes) header_size
      then none
      else accept bytes
          (record { header = header; payload = received_payload header.size bytes msg.payload })
