-- ===== src/Protocol.antt =====
-- server/protocol_handler.cpp: the bytes of a connection are cut into messages.
pub mod Frames
pub mod Reading
pub mod Stream
pub mod Delivery
pub mod Refusal
pub mod Oversized
use vsr_kv.Common.{
  ℕ, zero, suc, ◌+◌, ◌-◌, ◌*◌, ◌/◌, ◌%◌, ◌^◌, ◌≤◌, ◌<◌, max, ◌≡◌, refl, sym, ap, subst, ◌∙◌, ◌≢◌,
  ◌↔◌, ◌⊎◌, inl, inr, Bool, true, false, not, ◌&&◌, ◌||◌, Option, none, some, List, [], ◌∷◌, ◌++◌,
  map, foldl, append-nil, append_assoc, arith, ℕ_discrete, dec_lt, ltb, leb, ◌==◌, if◌then◌else◌,
  ltb→lt, lt→ltb, le→ltb, ==_iff, ==_refl, Bool-cases, Option-cases, length, take, drop, replicate,
  All, length-append, length-drop, length-take_of_le, take-append, drop-append, take-append-drop,
  All-append,
}
use vsr_kv.Common.Map.{Map, find, insert, erase, nat_key}
use vsr_kv.Message.{VsrMessage, empty_message}
use vsr_kv.Message.Layout.{header_pod, header_size}
use vsr_kv.Message.Checksum.{Blake3}
use vsr_kv.Message.Codec.{serialize, deserialize}

-- 64 KB
abbrev pub max_message_size : ℕ
max_message_size = 65536

-- What the front of a buffer holds: too little, a message that closes the connection, or a
-- message and what follows it.
pub data Frame : Type 0 where
  incomplete invalid : Frame
  message : VsrMessage → List ℕ → Frame

-- `connection_buffers_`, the calls of `on_message_received_` in order, with the socket, and the
-- sockets that have been closed.
pub record ProtocolHandler : Type 0 where
  pub connection_buffers : Map ℕ (List ℕ)
  pub received : List (ℕ × VsrMessage)
  pub closed : List ℕ

abbrev pub buffer_of : ℕ → Map ℕ (List ℕ) → List ℕ
buffer_of socket_fd buffers = elim (find socket_fd buffers) [ none ↦ [] | some buffer ↦ buffer ]

-- `connection_buffers_`, and `close_socket`, after the loop: `none` is the early return.
unfoldable pub keep_buffer : ℕ → Option (List ℕ) → ProtocolHandler → ProtocolHandler
keep_buffer socket_fd none p = record p {
  connection_buffers = erase socket_fd p.connection_buffers;
  closed = p.closed ++ (socket_fd ∷ []);
}
keep_buffer socket_fd (some buffer) p = record p {
  connection_buffers = insert socket_fd buffer p.connection_buffers;
}

-- The connection is the socket, `none` once it is closed.
unfoldable pub on_disconnect : Option ℕ → ProtocolHandler → ProtocolHandler
on_disconnect none p = p
on_disconnect (some socket_fd) p = record p {
  connection_buffers = erase socket_fd p.connection_buffers;
}

module _ (blake3 : Blake3) where
  -- One round of the loop of `handle_raw_data`.
  unfoldable pub next_frame : List ℕ → Frame
  next_frame buffer =
      let expected_size = (header_pod.value (take header_size buffer)).size in
      let full_message = deserialize blake3 (take expected_size buffer) empty_message in
      if ltb (length buffer) header_size
      then Frame.incomplete
      else if expected_size == 0 || ltb max_message_size expected_size
      then Frame.invalid
      else if ltb (length buffer) expected_size
      then Frame.incomplete
      else elim full_message [
        | none ↦ Frame.invalid
        | some msg ↦ Frame.message msg (drop expected_size buffer)
      ]

  -- The messages of a buffer in order, and what is left of it, unless an invalid one was met.
  unfoldable pub read_messages : ℕ → List ℕ → List VsrMessage × Option (List ℕ)
  read_messages zero buffer = ([], some buffer)
  read_messages (suc rounds) buffer = elim (next_frame buffer) [
    | incomplete ↦ ([], some buffer)
    | invalid ↦ ([], none)
    | message msg rest ↦ let (msgs, left) = read_messages rounds rest in (msg ∷ msgs, left)
  ]

  -- A message takes a byte at least, so the length of the buffer is enough.
  unfoldable pub read_all : List ℕ → List VsrMessage × Option (List ℕ)
  unfolding read_messages
  read_all buffer = read_messages (length buffer) buffer

  unfoldable pub handle_raw_data : Option ℕ → List ℕ → ProtocolHandler → ProtocolHandler
  unfolding read_all keep_buffer
  handle_raw_data none bytes p = p
  handle_raw_data (some socket_fd) bytes p =
      let (msgs, left) = read_all (buffer_of socket_fd p.connection_buffers ++ bytes) in
      keep_buffer socket_fd left
        (record p { received = p.received ++ map (λ msg. (socket_fd, msg)) msgs })
