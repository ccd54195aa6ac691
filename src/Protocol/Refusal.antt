-- ===== src/Protocol/Refusal.antt =====
-- A connection that sends bytes which are not a message.
use vsr_kv.Common.{
  ℕ, ◌≤◌, ◌≡◌, ap, ◌∙◌, ◌⊎◌, inl, inr, true, false, none, some, List, [], ◌∷◌, ◌++◌, map,
  append-nil, length, take, drop, All,
}
use vsr_kv.Common.Map.{erase, nat_key}
use vsr_kv.Message.{VsrMessage, empty_message}
use vsr_kv.Message.Layout.{header_size}
use vsr_kv.Message.Checksum.{Blake3}
use vsr_kv.Message.Codec.{sealed, deserialize}
use vsr_kv.Protocol.{
  ProtocolHandler, Frame, buffer_of, next_frame, read_all, handle_raw_data, keep_buffer,
}
use vsr_kv.Protocol.Frames.{expected_size, bad_size, framed, next_frame_bad, next_frame_whole}
use vsr_kv.Protocol.Reading.{Read, read_all_lem, by_frame, read_all-append, continue_read}
use vsr_kv.Protocol.Stream.{stream, FrameFits, read_all-stream}
use vsr_kv.Protocol.Delivery.{from}

module _ (blake3 : Blake3) where
  -- A header whose size is 0 or over the limit, or a message of its size that fails a test.
  pub record Refused (bytes : List ℕ) : Type 0 where
    pub header : header_size ≤ length bytes
    pub why :
        (bad_size (expected_size bytes) ≡ true)
        ⊎ ((bad_size (expected_size bytes) ≡ false)
            × (expected_size bytes ≤ length bytes)
            × (deserialize blake3 (take (expected_size bytes) bytes) empty_message ≡ none))

  next_frame-Refused : (bytes : List ℕ) → Refused bytes → next_frame blake3 bytes ≡ Frame.invalid
  next_frame-Refused bytes f = elim (f.why) [
    | inl b ↦ next_frame_bad blake3 bytes f.header b
    | inr (b, w, d) ↦
        next_frame_whole blake3 bytes f.header b w
        ∙ ap (λ o. framed o (drop (expected_size bytes) bytes)) d
  ]

  read_all-Refused :
      (msgs : List VsrMessage) (bytes : List ℕ)
      → All FrameFits msgs
      → Refused bytes
      → read_all blake3 (stream blake3 msgs ++ bytes) ≡ (map (sealed blake3) msgs, none)
  read_all-Refused msgs bytes f b =
      read_all-append blake3 (stream blake3 msgs) bytes
      ∙ ap (λ read. continue_read blake3 read bytes) (read_all-stream blake3 msgs f)
      ∙ ap (λ (read : Read). (map (sealed blake3) msgs ++ read.0, read.1))
          (read_all_lem blake3 bytes
            ∙ ap (λ fr. by_frame blake3 fr bytes) (next_frame-Refused bytes b))
      ∙ ap (λ ms. (ms, none)) (append-nil (map (sealed blake3) msgs))

  -- A connection with an empty buffer sends messages in range, none over the limit, and then
  -- bytes whose header has a bad size or which fail a test of `deserialize`. Then the messages
  -- in front are handed on in their order, the buffer is dropped, so that nothing behind them is
  -- read, and the socket is closed.
  pub handle_raw_data-Refused :
      (socket_fd : ℕ) (msgs : List VsrMessage) (bytes : List ℕ) (p : ProtocolHandler)
      → All FrameFits msgs
      → Refused bytes
      → buffer_of socket_fd p.connection_buffers ≡ []
      → handle_raw_data blake3 (some socket_fd) (stream blake3 msgs ++ bytes) p ≡ record {
        connection_buffers = erase socket_fd p.connection_buffers;
        received = p.received ++ from socket_fd (map (sealed blake3) msgs);
        closed = p.closed ++ (socket_fd ∷ []);
      }
  unfolding handle_raw_data keep_buffer
  handle_raw_data-Refused socket_fd msgs bytes p f b e = rw (e, read_all-Refused msgs bytes f b)
