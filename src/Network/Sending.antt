-- ===== src/Network/Sending.antt =====
-- server/protocol_handler.cpp: the messages that a replica sends, as bytes for the connections.
use vsr_kv.Common.{
  ℕ, ◌+◌, ◌≡◌, refl, sym, ap, ◌∙◌, inl, inr, Bool, true, false, not, ◌&&◌, Option, none, some, List,
  [], ◌∷◌, ◌++◌, map, append-nil, append_assoc, arith, ◌==◌, if◌then◌else◌, Bool-cases, All,
}
use vsr_kv.Common.Map.{Map, nat_key}
use vsr_kv.Common.Map.Ascending.{Ascends}
use vsr_kv.Message.{VsrMessage}
use vsr_kv.Message.Checksum.{Blake3}
use vsr_kv.Message.Codec.{serialize, sealed}
use vsr_kv.Protocol.{ProtocolHandler, buffer_of}
use vsr_kv.Protocol.Stream.{stream, concat, FrameFits}
use vsr_kv.Protocol.Delivery.{Fed, receive, receive-stream}
use vsr_kv.Network.Sockets.{Peer, Server, Pending}
use vsr_kv.Network.Server.{is_connected, send, send_to_peer, broadcast_to_peers}
use vsr_kv.Network.Broadcast.{writes, write_to, broadcast_to_peers-writes}

-- The bytes that are to be written on a connection.
abbrev pub written : ℕ → List Pending → List ℕ
written c [] = []
written c (Pending.write_task d bytes ∷ ps) = (if d == c then bytes else []) ++ written c ps
written c (_ ∷ ps) = written c ps

written-append :
    (c : ℕ) (ps qs : List Pending) → written c (ps ++ qs) ≡ written c ps ++ written c qs
written-append c [] qs = refl
written-append c (Pending.write_task d bytes ∷ ps) qs =
    ap (λ w. (if d == c then bytes else []) ++ w) (written-append c ps qs)
    ∙ sym (append_assoc (if d == c then bytes else []) (written c ps) (written c qs))
written-append c (_ ∷ ps) qs = written-append c ps qs

-- Whether a peer is connected by this connection, and how many of them are.
abbrev pub is_reached : ℕ → Option ℕ → Bool → Bool
is_reached c none up = false
is_reached c (some d) up = up && d == c

abbrev pub reached : ℕ → Map ℕ Peer → ℕ
reached c [] = 0
reached c (entry ∷ peers) =
    (if is_reached c (entry.1).connection (is_connected (entry.1).state) then 1 else 0)
    + reached c peers

reached_write :
    (c : ℕ) (bytes : List ℕ) (connection : Option ℕ) (up : Bool)
    → written c (elim connection [
      | none ↦ []
      | some d ↦ if up && not false then Pending.write_task d bytes ∷ [] else []
    ])
      ≡ (if is_reached c connection up then bytes else [])
reached_write c bytes none up = refl
reached_write c bytes (some d) true = append-nil (if d == c then bytes else [])
reached_write c bytes (some d) false = refl

written-writes-none :
    (c : ℕ) (bytes : List ℕ) (peers : Map ℕ Peer)
    → reached c peers ≡ 0
    → written c (writes bytes none peers) ≡ []
written-writes-none c bytes [] h = refl
written-writes-none c bytes (entry ∷ peers) h =
    let w = reached_write c bytes (entry.1).connection (is_connected (entry.1).state) in
    elim (Bool-cases (is_reached c (entry.1).connection (is_connected (entry.1).state))) [
      | inl x ↦ absurd (omega (arith, rw x at h))
      | inr x ↦
          let z : written c (write_to bytes none entry) ≡ [] = w ∙ rw x refl in
          written-append c (write_to bytes none entry) (writes bytes none peers)
          ∙ ap (λ l. l ++ written c (writes bytes none peers)) z
          ∙ written-writes-none c bytes peers (omega (arith, rw x at h))
    ]

written-writes :
    (c : ℕ) (bytes : List ℕ) (peers : Map ℕ Peer)
    → reached c peers ≡ 1
    → written c (writes bytes none peers) ≡ bytes
written-writes c bytes [] h = absurd (omega arith)
written-writes c bytes (entry ∷ peers) h =
    let w = reached_write c bytes (entry.1).connection (is_connected (entry.1).state) in
    elim (Bool-cases (is_reached c (entry.1).connection (is_connected (entry.1).state))) [
      | inl x ↦
          let y : 1 + reached c peers ≡ 1 = rw x at h in
          let z : written c (write_to bytes none entry) ≡ bytes = w ∙ rw x refl in
          written-append c (write_to bytes none entry) (writes bytes none peers)
          ∙ ap (λ l. l ++ written c (writes bytes none peers)) z
          ∙ ap (λ l. bytes ++ l) (written-writes-none c bytes peers (omega (arith, y)))
          ∙ append-nil bytes
      | inr x ↦
          let z : written c (write_to bytes none entry) ≡ [] = w ∙ rw x refl in
          written-append c (write_to bytes none entry) (writes bytes none peers)
          ∙ ap (λ l. l ++ written c (writes bytes none peers)) z
          ∙ written-writes c bytes peers (omega (arith, rw x at h))
    ]

module _ (blake3 : Blake3) where
  unfoldable send_message : ℕ → VsrMessage → Server → Server
  send_message connection msg s = send connection (serialize blake3 msg) s

  unfoldable send_message_to_peer : ℕ → VsrMessage → Server → Server
  send_message_to_peer peer_id msg s = send_to_peer peer_id (serialize blake3 msg) s

  unfoldable pub broadcast_message : VsrMessage → Server → Server
  broadcast_message msg s = broadcast_to_peers (serialize blake3 msg) none s

  abbrev pub broadcast_all : List VsrMessage → Server → Server
  broadcast_all [] s = s
  broadcast_all (msg ∷ msgs) s = broadcast_all msgs (broadcast_message msg s)

  broadcast_all-written :
      (c : ℕ) (msgs : List VsrMessage) (s : Server)
      → Ascends 0 s.peers_by_id
      → reached c s.peers_by_id ≡ 1
      → written c (broadcast_all msgs s).pending ≡ written c s.pending ++ stream blake3 msgs
  unfolding broadcast_message
  broadcast_all-written c [] s a h = sym (append-nil (written c s.pending))
  broadcast_all-written c (msg ∷ msgs) s a h =
      let bytes = serialize blake3 msg in
      let t : Server = record s { pending = s.pending ++ writes bytes none s.peers_by_id } in
      ap (λ s. written c (broadcast_all msgs s).pending) (broadcast_to_peers-writes bytes none s a)
      ∙ broadcast_all-written c msgs t a h
      ∙ ap (λ w. w ++ stream blake3 msgs)
          (written-append c s.pending (writes bytes none s.peers_by_id)
            ∙ ap (λ w. written c s.pending ++ w) (written-writes c bytes s.peers_by_id h))
      ∙ append_assoc (written c s.pending) bytes (stream blake3 msgs)

  -- A replica broadcasts messages in range, none over the limit, to its peers, of which one is
  -- connected by the connection `c`, with nothing else to be written there. When what is to be
  -- written on `c` arrives at that peer, in any division into reads, the peer has the messages in
  -- their order, each as its sender sealed it, and an empty buffer.
  pub broadcasts_arrive :
      (c socket_fd : ℕ) (msgs : List VsrMessage) (s : Server) (chunks : List (List ℕ))
      (p : ProtocolHandler)
      → Ascends 0 s.peers_by_id
      → reached c s.peers_by_id ≡ 1
      → written c s.pending ≡ []
      → All FrameFits msgs
      → concat chunks ≡ written c (broadcast_all msgs s).pending
      → buffer_of socket_fd p.connection_buffers ≡ []
      → Fed socket_fd p (map (sealed blake3) msgs) [] (receive blake3 socket_fd chunks p)
  broadcasts_arrive c socket_fd msgs s chunks p a h w f e b =
      receive-stream blake3 socket_fd chunks msgs p f
        (e ∙ broadcast_all-written c msgs s a h ∙ ap (λ l. l ++ stream blake3 msgs) w) b
