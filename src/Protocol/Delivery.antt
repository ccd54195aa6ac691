-- ===== src/Protocol/Delivery.antt =====
-- What a connection delivers over any sequence of reads.
use vsr_kv.Common.{
  ℕ, ◌≡◌, refl, sym, ap, subst, ◌∙◌, none, some, List, [], ◌∷◌, ◌++◌, map, foldl, append-nil,
  append_assoc, arith, All,
}
use mathlib.Core.List.{map-append}
use vsr_kv.Common.Map.{Map, insert, nat_key, find-insert}
use vsr_kv.Message.{VsrMessage}
use vsr_kv.Message.Checksum.{Blake3}
use vsr_kv.Message.Codec.{sealed}
use vsr_kv.Protocol.{ProtocolHandler, buffer_of, read_all, handle_raw_data, keep_buffer}
use vsr_kv.Protocol.Reading.{Read, read_all-append, continue_read, Settled, read_all-Settled}
use vsr_kv.Protocol.Stream.{stream, concat, FrameFits, read_all-stream}

abbrev pub from : ℕ → List VsrMessage → List (ℕ × VsrMessage)
from socket_fd msgs = map (λ msg. (socket_fd, msg)) msgs

-- From `p` to `q` the connection has delivered `msgs` and kept `left`.
pub record Fed (socket_fd : ℕ) (p : ProtocolHandler) (msgs : List VsrMessage) (left : List ℕ)
    (q : ProtocolHandler) : Type 0 where
  pub received : q.received ≡ p.received ++ from socket_fd msgs
  pub buffer : buffer_of socket_fd q.connection_buffers ≡ left
  pub closed : q.closed ≡ p.closed

abbrev FedTo : ℕ → ProtocolHandler → Read → ProtocolHandler → Type 0
FedTo socket_fd p (msgs, none) q = Unit
FedTo socket_fd p (msgs, some left) q = Fed socket_fd p msgs left q

Fed-trans :
    (socket_fd : ℕ) (p p1 q : ProtocolHandler) (msgs : List VsrMessage) (left : List ℕ)
    (read : Read)
    → Fed socket_fd p msgs left p1
    → FedTo socket_fd p1 read q
    → FedTo socket_fd p (msgs ++ read.0, read.1) q
Fed-trans socket_fd p p1 q msgs left (more, none) f g = tt
Fed-trans socket_fd p p1 q msgs left (more, some rest) f g = record {
  received =
      rw
        (
          g.received,
          f.received,
          map-append {B = ℕ × VsrMessage} (λ msg. (socket_fd, msg)) msgs more,
        )
        (append_assoc p.received (from socket_fd msgs) (from socket_fd more));
  buffer = g.buffer;
  closed = g.closed ∙ f.closed;
}

buffer_of-insert :
    (socket_fd : ℕ) (buffer : List ℕ) (buffers : Map ℕ (List ℕ))
    → buffer_of socket_fd (insert socket_fd buffer buffers) ≡ buffer
buffer_of-insert socket_fd buffer buffers =
    ground (arith, find-insert socket_fd socket_fd buffer buffers)

module _ (blake3 : Blake3) (socket_fd : ℕ) where
  -- The reads of one connection, in order.
  abbrev pub receive : List (List ℕ) → ProtocolHandler → ProtocolHandler
  receive chunks p = foldl (λ q chunk. handle_raw_data blake3 (some socket_fd) chunk q) p chunks

  abbrev buffered : ProtocolHandler → List ℕ
  buffered p = buffer_of socket_fd p.connection_buffers

  -- The handler after a read, by what the loop made of the buffer.
  abbrev taken : Read → ProtocolHandler → ProtocolHandler
  unfolding keep_buffer
  taken (msgs, left) p =
      keep_buffer socket_fd left (record p { received = p.received ++ from socket_fd msgs })

  Feeds : List (List ℕ) → Type 0
  Feeds chunks =
      (p : ProtocolHandler)
      → read_all blake3 (buffered p) ≡ ([], some (buffered p))
      → FedTo socket_fd p (read_all blake3 (buffered p ++ concat chunks)) (receive chunks p)

  taken-Fed :
      (p : ProtocolHandler) (msgs : List VsrMessage) (left : List ℕ)
      → Fed socket_fd p msgs left (taken (msgs, some left) p)
  unfolding keep_buffer
  taken-Fed p msgs left = record {
    received = refl;
    buffer = buffer_of-insert socket_fd left p.connection_buffers;
    closed = refl;
  }

  feed_read :
      (chunks : List (List ℕ)) (p : ProtocolHandler) (read : Read)
      → Feeds chunks
      → Settled blake3 read
      → FedTo socket_fd p
          (continue_read blake3 read (concat chunks))
          (receive chunks (taken read p))
  unfolding Feeds
  feed_read chunks p (msgs, none) feeds s = tt
  feed_read chunks p (msgs, some left) feeds s =
      Fed-trans socket_fd p p1 (receive chunks p1) msgs left
        (read_all blake3 (left ++ concat chunks)) (taken-Fed p msgs left)
        (subst (λ b. FedTo socket_fd p1 (read_all blake3 (b ++ concat chunks)) (receive chunks p1))
          same (feeds p1 (subst (λ b. read_all blake3 b ≡ ([], some b)) (sym same) s)))
    where
      p1 : ProtocolHandler
      p1 = taken (msgs, some left) p

      same : buffered p1 ≡ left
      same = (taken-Fed p msgs left).buffer

  feed : (chunks : List (List ℕ)) → Feeds chunks
  unfolding Feeds handle_raw_data
  feed [] p s =
      rw (append-nil (buffered p), s)
        (record { received = sym (append-nil p.received); buffer = refl; closed = refl })
  feed (chunk ∷ chunks) p s =
      rw
        (
          ← append_assoc (buffered p) chunk (concat chunks),
          read_all-append blake3 (buffered p ++ chunk) (concat chunks),
        )
        (feed_read chunks p (read_all blake3 (buffered p ++ chunk)) (feed chunks)
          (read_all-Settled blake3 (buffered p ++ chunk)))

  -- A connection with an empty buffer receives the bytes of messages in range, none over the
  -- limit, in any division into reads. Then the messages are handed on in their order, each as
  -- its sender sealed it, the buffer is empty again and no connection has been closed.
  pub receive-stream :
      (chunks : List (List ℕ)) (msgs : List VsrMessage) (p : ProtocolHandler)
      → All FrameFits msgs
      → concat chunks ≡ stream blake3 msgs
      → buffer_of socket_fd p.connection_buffers ≡ []
      → Fed socket_fd p (map (sealed blake3) msgs) [] (receive chunks p)
  unfolding Feeds
  receive-stream chunks msgs p f e b =
      subst (λ read. FedTo socket_fd p read (receive chunks p))
        (ap (λ bs. read_all blake3 (bs ++ concat chunks)) b
          ∙ ap (read_all blake3) e
          ∙ read_all-stream blake3 msgs f)
        (feed chunks p
          (subst (λ bs. read_all blake3 bs ≡ ([], some bs)) (sym b) (read_all-stream blake3 [] tt)))
