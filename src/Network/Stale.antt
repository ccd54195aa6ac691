-- ===== src/Network/Stale.antt =====
-- A second connection of a peer, and the end of the first one.
use vsr_kv.Common.{
  ℕ, ◌≤◌, ◌≡◌, refl, sym, ap, subst, ◌∙◌, ◌≢◌, true, Option, none, some, List, le→ltb,
}
use vsr_kv.Common.Map.{find, insert, erase, find-insert, find-erase_other, nat_key}
use vsr_kv.Network.Sockets.{fd_key, PeerState, Peer, Callback, Server, call, get_socket}
use vsr_kv.Network.Server.{
  send_to_peer, on_disconnect, forget_connection, remove_connection, read_done,
}
use vsr_kv.Network.Completions.{marked_disconnected, on_disconnect_known}

abbrev pub IsLost : Option Peer → Type 0
IsLost none = ⊥
IsLost (some peer) = (peer.state ≡ PeerState.disconnected) × (peer.connection ≡ none)

-- The peer is given up, though the server still holds its connection.
pub record GivenUp (connection id : ℕ) (socket_fd : Option ℕ) (s t : Server) : Type 0 where
  pub disconnected : IsLost (find id t.peers_by_id)
  pub held : find socket_fd t.connections ≡ some connection
  pub still_registered : find socket_fd t.socket_to_peer_id ≡ some id
  pub no_reconnect : t.pending ≡ s.pending
  pub nothing_sent : (bytes : List ℕ) → send_to_peer id bytes t ≡ t

send_to_no_connection :
    (id : ℕ) (bytes : List ℕ) (peer : Peer) (t : Server)
    → find id t.peers_by_id ≡ some peer
    → peer.connection ≡ none
    → send_to_peer id bytes t ≡ t
unfolding send_to_peer
send_to_no_connection id bytes peer t e n = rw (send_to_peer, e, n) refl

marked-GivenUp :
    (stale connection id : ℕ) (peer : Peer) (s : Server)
    → peer.id ≡ id
    → find (get_socket connection s) s.socket_to_peer_id ≡ some id
    → find (get_socket connection s) s.connections ≡ some connection
    → get_socket connection s ≢ get_socket stale s
    → let t =
        marked_disconnected (get_socket stale s) peer (call (Callback.on_disconnect stale) s) in
      GivenUp connection id
        (get_socket connection s)
        s
        (record t { connections = erase (get_socket stale s) t.connections })
marked-GivenUp stale connection id peer s k r h d = record {
  disconnected = subst IsLost (sym marked) (refl, refl);
  held = find-erase_other (get_socket stale s) (get_socket connection s) s.connections d ∙ h;
  still_registered =
      find-erase_other (get_socket stale s) (get_socket connection s) s.socket_to_peer_id d ∙ r;
  no_reconnect = refl;
  nothing_sent = λ bytes. send_to_no_connection id bytes given_up _ marked refl;
}
  where
    given_up : Peer
    given_up = record peer { state = PeerState.disconnected; connection = none }

    marked : find id (insert peer.id given_up s.peers_by_id) ≡ some given_up
    marked =
        find-insert peer.id id given_up s.peers_by_id
        ∙ rw ((nat_key.equiv_iff id peer.id).1 (sym k)) refl

-- A peer with a higher id that has connected a second time: once a read of the former connection
-- fails, the peer is marked as disconnected and without a connection. What is sent to it is
-- dropped, though the server still holds the connection in use and has its socket registered for
-- the peer, and the server does not reconnect.
pub stale_disconnect :
    (stale connection id : ℕ) (peer : Peer) (bytes : List ℕ) (s : Server)
    → find id s.peers_by_id ≡ some peer
    → peer.id ≡ id
    → s.self_id ≤ id
    → peer.connection ≡ some connection
    → find (get_socket stale s) s.socket_to_peer_id ≡ some id
    → find (get_socket connection s) s.socket_to_peer_id ≡ some id
    → find (get_socket connection s) s.connections ≡ some connection
    → get_socket connection s ≢ get_socket stale s
    → (t : Server) × (read_done true bytes stale s ≡ some t)
      × GivenUp connection id (get_socket connection s) s t
unfolding read_done remove_connection get_socket
stale_disconnect stale connection id peer bytes s e k l c f r h d =
    let v = call (Callback.on_disconnect stale) s in
    let u = marked_disconnected (get_socket stale s) peer v in
    let lost : on_disconnect stale v ≡ some u =
      on_disconnect_known stale id peer v f e
      ∙ rw (le→ltb peer.id s.self_id (subst (λ n. s.self_id ≤ n) (sym k) l)) refl in
    (
      record u { connections = erase (get_socket stale s) u.connections },
      ap (forget_connection stale) lost,
      marked-GivenUp stale connection id peer s k r h d,
    )
