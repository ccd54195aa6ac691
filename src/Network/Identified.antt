-- ===== src/Network/Identified.antt =====
-- The first read of a connection from a peer: the peer is identified by its handshake.
use vsr_kv.Common.{
  ℕ, ◌^◌, ◌<◌, ◌≡◌, refl, sym, subst, inl, inr, true, Option, some, List, ◌++◌, Option-cases,
}
use vsr_kv.Common.Map.{Map, find, insert, find-insert, nat_key}
use vsr_kv.Network.Sockets.{
  ConnectionState, TcpConnection, fd_key, PeerState, Peer, Server, get_socket, change_object,
  set_state,
}
use vsr_kv.Network.Server.{set_peer, register_identified_peer, is_unidentified, received}
use vsr_kv.Network.Sockets.{socket_of}
use vsr_kv.Network.Handshake.{ℤ, handshake_msg}
use vsr_kv.Network.Identify.{NoDigit, handshake_id-handshake_msg}

-- A new state of a connection changes the objects alone, and no socket.
set_state-lem :
    (state : ConnectionState) (connection : ℕ) (s : Server)
    → (objects : Map ℕ TcpConnection) × (set_state state connection s
        ≡ record s { objects = objects })
      × (socket_of (find connection objects) ≡ get_socket connection s)
unfolding set_state get_socket
set_state-lem state connection s = elim (Option-cases (find connection s.objects)) [
  | inl e ↦ (s.objects, rw (change_object, e) refl, refl)
  | inr (c, e) ↦ (
    insert connection (record c { state = state }) s.objects,
    rw (change_object, e) refl,
    rw
        (
          find-insert connection connection (record c { state = state }) s.objects,
          (nat_key.equiv_iff connection connection).1 refl,
          e,
        )
        refl,
  )
]

register_known :
    (id connection : ℕ) (peer : Peer) (s : Server)
    → find id s.peers_by_id ≡ some peer
    → register_identified_peer (ℤ.pos id) connection s
      ≡ record (set_peer peer PeerState.connected (some connection) s) {
        socket_to_peer_id = insert (get_socket connection s) peer.id s.socket_to_peer_id;
      }
unfolding get_socket register_identified_peer
register_known id connection peer s e = rw (register_identified_peer, e) refl

-- The peer of a handshake after the read.
pub record Identified (connection : ℕ) (peer : Peer) (s t : Server) : Type 0 where
  pub peer_connected :
      find peer.id t.peers_by_id
      ≡ some (record peer { state = PeerState.connected; connection = some connection })
  pub socket_known : find (get_socket connection s) t.socket_to_peer_id ≡ some peer.id
  pub nothing_handed_on : t.called ≡ s.called
  pub nothing_sent : t.pending ≡ s.pending

registered :
    (connection : ℕ) (peer : Peer) (s : Server) (socket_fd : Option ℕ)
    (objects : Map ℕ TcpConnection)
    → get_socket connection s ≡ socket_fd
    → Identified connection peer s
        (record (set_peer peer PeerState.connected
          (some connection)
          (record s { objects = objects })) {
            socket_to_peer_id = insert socket_fd peer.id s.socket_to_peer_id;
          })
registered connection peer s socket_fd objects e = record {
  peer_connected =
      rw
        (
          find-insert peer.id peer.id
              (record peer { state = PeerState.connected; connection = some connection })
              s.peers_by_id,
          (nat_key.equiv_iff peer.id peer.id).1 refl,
        )
        refl;
  socket_known =
      rw
        (
          e,
          find-insert socket_fd socket_fd peer.id s.socket_to_peer_id,
          (fd_key.equiv_iff socket_fd socket_fd).1 refl,
        )
        refl;
  nothing_handed_on = refl;
  nothing_sent = refl;
}

registers :
    (connection : ℕ) (peer : Peer) (s : Server)
    → find peer.id s.peers_by_id ≡ some peer
    → Identified connection peer s (
        register_identified_peer
          (ℤ.pos peer.id)
          connection
          (set_state ConnectionState.peer connection s))
unfolding get_socket
registers connection peer s e =
    let (objects, set, same) = set_state-lem ConnectionState.peer connection s in
    let t = record s { objects = objects } in
    subst
      (λ u. Identified connection peer s (register_identified_peer (ℤ.pos peer.id) connection u))
      (sym set)
      (subst (Identified connection peer s) (sym (register_known peer.id connection peer t e))
        (registered connection peer s (get_socket connection t) objects (sym same)))

-- The first read of a connection that brings the handshake of a peer with an id that an `int`
-- holds connects the peer over this connection. Whatever the read brings behind the handshake,
-- if it does not begin with a digit, is dropped: no message is handed on.
pub received-handshake :
    (connection : ℕ) (peer : Peer) (rest : List ℕ) (s : Server)
    → is_unidentified (find connection s.objects) ≡ true
    → find peer.id s.peers_by_id ≡ some peer
    → peer.id < 2 ^ 31
    → NoDigit rest
    → Identified connection peer s (received (handshake_msg peer.id ++ rest) connection s)
unfolding received
received-handshake connection peer rest s u e h r =
    rw (received, u, handshake_id-handshake_msg peer.id rest h r) (registers connection peer s e)
