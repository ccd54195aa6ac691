-- ===== src/Message/RoundTrip.antt =====
-- What `deserialize` makes of the bytes that `serialize` wrote.
use vsr_kv.Common.{
  ℕ, ◌+◌, ◌-◌, ◌^◌, ◌≤◌, ◌<◌, ◌≡◌, refl, sym, ap, ◌∙◌, true, some, List, [], ◌∷◌, ◌++◌, arith,
  lt→ltb, le→ltb, ==_iff, length, take, length-append, take-append, drop-append,
}
use vsr_kv.Utilities.{zero_u128, u128_eq_iff}
use vsr_kv.Message.{VsrHeader, VsrMessage, empty_message}
use vsr_kv.Message.Layout.{header_pod, header_size, HeaderFits, header_wrap, header_pod_size}
use vsr_kv.Message.Checksum.{Blake3, checksum_Fits}
use vsr_kv.Message.Codec.{
  accept, received_payload, sealed, serialize, deserialize, verify_header_checksum,
  verify_body_checksum,
}

-- The ranges of the members, and a size that a `uint32_t` holds.
pub record MessageFits (msg : VsrMessage) : Type 0 where
  pub header : HeaderFits msg.header
  pub size : header_size + length msg.payload < 2 ^ 32

pub length-header :
    (h : VsrHeader) (payload : List ℕ)
    → length (header_pod.bytes h ++ payload) ≡ header_size + length payload
length-header h payload =
    omega (
      arith,
      length-append (header_pod.bytes h) payload,
      header_pod.length-bytes h,
      header_pod_size,
    )

long : (h : VsrHeader) (payload : List ℕ) → header_size ≤ length (header_pod.bytes h ++ payload)
long h payload = omega (arith, length-header h payload)

header_length : (h : VsrHeader) → length (header_pod.bytes h) ≡ header_size
header_length h = header_pod.length-bytes h ∙ header_pod_size

pub header_read :
    (h : VsrHeader) (payload : List ℕ)
    → HeaderFits h
    → header_pod.value (take header_size (header_pod.bytes h ++ payload)) ≡ h
header_read h payload f =
    ap header_pod.value (take-append header_size (header_pod.bytes h) payload (header_length h))
    ∙ header_pod.value-bytes h
    ∙ header_wrap h f

payload_read :
    (h : VsrHeader) (payload : List ℕ)
    → h.size ≡ header_size + length payload
    → received_payload h.size (header_pod.bytes h ++ payload) [] ≡ payload
unfolding received_payload
payload_read h [] e = rw (le→ltb 0 (h.size - header_size) (omega arith), received_payload)
payload_read h (b ∷ bs) e =
    rw (lt→ltb 0 (h.size - header_size) (omega arith), received_payload)
      (drop-append header_size (header_pod.bytes h) (b ∷ bs) (header_length h))

module _ (blake3 : Blake3) where
  accept_tests :
      (h : VsrHeader) (payload : List ℕ)
      → h.size ≡ header_size + length payload
      → let msg : VsrMessage = record { header = h; payload = payload } in
        verify_header_checksum blake3 msg ≡ true
        → verify_body_checksum blake3 msg ≡ true
        → accept blake3 (header_pod.bytes h ++ payload) msg ≡ some msg
  unfolding accept
  accept_tests h payload e v w = rw ((==_iff h.size _).1 (e ∙ sym (length-header h payload)), v, w)

  -- What the header checksum is computed over.
  abbrev sealed_input : VsrMessage → List ℕ
  unfolding sealed
  sealed_input msg = header_pod.bytes (record ((sealed blake3 msg).header) { checksum = zero_u128 })

  pub sealed_Fits : (msg : VsrMessage) → MessageFits msg → HeaderFits (sealed blake3 msg).header
  unfolding sealed
  sealed_Fits msg f =
      ground (arith, checksum_Fits blake3 msg.payload, checksum_Fits blake3 (sealed_input msg))

  pub verify_header-sealed :
      (msg : VsrMessage) → verify_header_checksum blake3 (sealed blake3 msg) ≡ true
  unfolding verify_header_checksum sealed
  verify_header-sealed msg = (u128_eq_iff _ _).1 refl

  pub verify_body-sealed :
      (header : VsrHeader) (payload : List ℕ)
      → let msg : VsrMessage = record { header = header; payload = payload } in
        verify_body_checksum blake3 (sealed blake3 msg) ≡ true
  unfolding verify_body_checksum sealed
  verify_body-sealed header [] = refl
  verify_body-sealed header (b ∷ bs) = (u128_eq_iff _ _).1 refl

  pub sealed_size :
      (msg : VsrMessage)
      → MessageFits msg
      → (sealed blake3 msg).header.size ≡ header_size + length msg.payload
  unfolding sealed
  sealed_size msg f = omega arith

  -- A header and a payload that pass the tests are read back from their bytes.
  deserialize-append :
      (h : VsrHeader) (payload : List ℕ)
      → HeaderFits h
      → h.size ≡ header_size + length payload
      → let msg : VsrMessage = record { header = h; payload = payload } in
        verify_header_checksum blake3 msg ≡ true
        → verify_body_checksum blake3 msg ≡ true
        → deserialize blake3 (header_pod.bytes h ++ payload) empty_message ≡ some msg
  unfolding deserialize
  deserialize-append h payload f e v w =
      rw
        (
          le→ltb (length (header_pod.bytes h ++ payload)) header_size (long h payload),
          header_read h payload f,
          payload_read h payload e,
        )
        (accept_tests h payload e v w)

  -- The receiver of the bytes of a message gets the message, with its checksums and size set.
  pub deserialize-serialize :
      (msg : VsrMessage)
      → MessageFits msg
      → deserialize blake3 (serialize blake3 msg) empty_message ≡ some (sealed blake3 msg)
  unfolding serialize sealed
  deserialize-serialize msg f =
      deserialize-append (sealed blake3 msg).header msg.payload (sealed_Fits msg f)
        (sealed_size msg f) (verify_header-sealed msg) (verify_body-sealed msg.header msg.payload)
