-- ===== src/Protocol/Stream.antt =====
-- A stream of messages, however the connection divides it.
use vsr_kv.Common.{
  ℕ, ◌+◌, ◌≤◌, ◌<◌, ◌≡◌, refl, sym, ap, subst, ◌∙◌, false, some, List, [], ◌∷◌, ◌++◌, map,
  append-nil, arith, length, take, drop, All, take-append, drop-append,
}
use vsr_kv.Common.Map.{nat_key}
use vsr_kv.Message.{VsrMessage}
use vsr_kv.Message.Layout.{header_size}
use vsr_kv.Message.Checksum.{Blake3}
use vsr_kv.Message.Codec.{serialize, sealed}
use vsr_kv.Message.RoundTrip.{
  MessageFits, deserialize-serialize, length-header, header_read, sealed_size, sealed_Fits,
}
use vsr_kv.Protocol.{read_messages, Frame, next_frame, read_all, max_message_size}
use vsr_kv.Protocol.Frames.{Extends, expected_size, bad_size, next_frame_whole, next_frame-append}
use vsr_kv.Protocol.Reading.{after_message, read_all_lem, by_frame}

-- A message in range that is not over the limit.
pub record FrameFits (msg : VsrMessage) : Type 0 where
  pub fits : MessageFits msg
  pub limit : header_size + length msg.payload ≤ max_message_size

good_size : (size : ℕ) → 0 < size → size ≤ max_message_size → bad_size size ≡ false
good_size size h i = ground arith

take_all {ℓ} : {A : Type ℓ} (n : ℕ) (xs : List A) → length xs ≡ n → take n xs ≡ xs
take_all n xs h = ap (take n) (sym (append-nil xs)) ∙ take-append n xs [] h

drop_all {ℓ} : {A : Type ℓ} (n : ℕ) (xs : List A) → length xs ≡ n → drop n xs ≡ []
drop_all n xs h = ap (drop n) (sym (append-nil xs)) ∙ drop-append n xs [] h

abbrev pub concat : List (List ℕ) → List ℕ
concat [] = []
concat (chunk ∷ chunks) = chunk ++ concat chunks

module _ (blake3 : Blake3) where
  -- The bytes of messages sent one after the other.
  abbrev pub stream : List VsrMessage → List ℕ
  stream msgs = concat (map (serialize blake3) msgs)

  pub length-serialize :
      (msg : VsrMessage) → length (serialize blake3 msg) ≡ header_size + length msg.payload
  unfolding serialize sealed
  length-serialize msg = length-header (sealed blake3 msg).header msg.payload

  pub expected_size-serialize :
      (msg : VsrMessage)
      → MessageFits msg
      → expected_size (serialize blake3 msg) ≡ header_size + length msg.payload
  unfolding serialize
  expected_size-serialize msg f =
      ap (λ h. h.size)
        (header_read (sealed blake3 msg).header (sealed blake3 msg).payload
          (sealed_Fits blake3 msg f))
      ∙ sealed_size blake3 msg f

  next_frame-serialize :
      (msg : VsrMessage)
      → FrameFits msg
      → next_frame blake3 (serialize blake3 msg) ≡ Frame.message (sealed blake3 msg) []
  next_frame-serialize msg f =
      next_frame_whole blake3 bytes (omega (arith, length-serialize msg))
        (ap bad_size (expected_size-serialize msg f.fits) ∙ good_size _ (omega arith) f.limit)
        (subst (λ n. n ≤ length bytes) (sym whole) (omega arith))
      ∙ rw (
        whole,
        take_all (length bytes) bytes refl,
        drop_all (length bytes) bytes refl,
        deserialize-serialize blake3 msg f.fits,
      )
    where
      bytes : List ℕ
      bytes = serialize blake3 msg

      whole : expected_size bytes ≡ length bytes
      whole = expected_size-serialize msg f.fits ∙ sym (length-serialize msg)

  first_message-serialize :
      (msg : VsrMessage) (rest : List ℕ)
      → FrameFits msg
      → next_frame blake3 (serialize blake3 msg ++ rest) ≡ Frame.message (sealed blake3 msg) rest
  first_message-serialize msg rest f =
      subst (λ fr. Extends rest fr (next_frame blake3 (serialize blake3 msg ++ rest)))
        (next_frame-serialize msg f) (next_frame-append blake3 (serialize blake3 msg) rest)

  -- A whole stream is read as the messages that were sent, and nothing is left.
  pub read_all-stream :
      (msgs : List VsrMessage)
      → All FrameFits msgs
      → read_all blake3 (stream msgs) ≡ (map (sealed blake3) msgs, some [])
  unfolding read_all read_messages
  read_all-stream [] f = refl
  read_all-stream (msg ∷ msgs) f =
      read_all_lem blake3 (stream (msg ∷ msgs))
      ∙ ap (λ fr. by_frame blake3 fr (stream (msg ∷ msgs)))
          (first_message-serialize msg (stream msgs) f.0)
      ∙ ap (after_message (sealed blake3 msg)) (read_all-stream msgs f.1)
