-- ===== src/Network/Server.antt =====
-- server/tcp_server.cpp and server/replica_manager.cpp: the operations of the server and of its
-- ReplicaManager, and the event loop that completes what they have submitted.
use vsr_kv.Common.{
  ℕ, Bool, true, false, Option, none, some, List, foldl, ltb, ◌==◌, if◌then◌else◌, length,
}
use vsr_kv.Common.Map.{find, insert, erase, nat_key}
use vsr_kv.Network.Sockets.{
  ConnectionState, TcpConnection, fd_key, PeerState, Peer, Pending, Callback, Server, post, call,
  get_socket, close_socket, set_state,
}
use vsr_kv.Network.Handshake.{ℤ, handshake_msg, handshake_id}

abbrev pub set_peer : Peer → PeerState → Option ℕ → Server → Server
set_peer peer state connection s = record s {
  peers_by_id =
      insert peer.id (record peer { state = state; connection = connection }) s.peers_by_id;
}

abbrev pub is_disconnected : PeerState → Bool
is_disconnected PeerState.disconnected = true
is_disconnected _ = false

abbrev pub is_connected : PeerState → Bool
is_connected PeerState.connected = true
is_connected _ = false

unfoldable pub schedule_reconnect : Peer → Server → Server
schedule_reconnect peer s = post (Pending.reconnect_timer peer.id) s

-- `sock` is what `socket` returns.
unfoldable pub attempt_connection : Option ℕ → Peer → Server → Server
unfolding schedule_reconnect
attempt_connection sock peer s =
    if is_disconnected peer.state
    then elim sock [
      | none ↦ schedule_reconnect peer (set_peer peer PeerState.disconnected peer.connection s)
      | some fd ↦
          post (Pending.connect_submitted peer.id fd)
            (set_peer peer PeerState.connecting peer.connection s)
    ]
    else s

-- What `socket` returns for each peer.
unfoldable pub connect_to_peers : (ℕ → Option ℕ) → Server → Server
unfolding attempt_connection
connect_to_peers sock s =
    foldl
      (λ t entry.
        if ltb (entry.1).id t.self_id then attempt_connection (sock (entry.1).id) entry.1 t else t)
      s s.peers_by_id

-- `TcpServer::send` posts the task that submits the write.
unfoldable pub send : ℕ → List ℕ → Server → Server
send connection bytes s = post (Pending.write_task connection bytes) s

unfoldable pub send_to_peer : ℕ → List ℕ → Server → Server
unfolding send
send_to_peer peer_id bytes s = elim (find peer_id s.peers_by_id) [
  | none ↦ s
  | some peer ↦ elim (peer.connection) [
    | none ↦ s
    | some connection ↦ if is_connected peer.state then send connection bytes s else s
  ]
]

abbrev pub excluded : Option ℕ → ℕ → Bool
excluded none id = false
excluded (some exclude_id) id = id == exclude_id

-- `exclude_id` is `none` for the default of -1.
unfoldable pub broadcast_to_peers : List ℕ → Option ℕ → Server → Server
unfolding send_to_peer
broadcast_to_peers bytes exclude_id s =
    foldl (λ t entry. if excluded exclude_id entry.0 then t else send_to_peer entry.0 bytes t) s
      s.peers_by_id

unfoldable pub send_handshake : Peer → Server → Server
unfolding send
send_handshake peer s = elim (peer.connection) [
  | none ↦ s
  | some connection ↦ send connection (handshake_msg s.self_id) s
]

unfoldable pub start_reading : ℕ → Server → Server
start_reading connection s = post (Pending.read_task connection) s

unfoldable pub start_accept : Server → Server
start_accept s = post Pending.accept_task s

unfoldable pub register_new_connection : ℕ → Server → Server
unfolding start_reading
register_new_connection connection s = start_reading connection (
    call (Callback.on_connect connection)
      (record s { connections = insert (get_socket connection s) connection s.connections }))

-- A new object for a socket: the objects are numbered in the order in which they are made.
abbrev pub make_connection : ℕ → Server → Server
make_connection fd s = record s {
  objects =
      insert (length s.objects)
        (record { socket_fd = some fd; state = ConnectionState.unidentified }) s.objects;
}

unfoldable pub handle_new_connection : ℕ → Server → Server
unfolding start_reading
handle_new_connection client_socket s =
    let connection = length s.objects in
    let t = make_connection client_socket s in
    start_reading connection
      (record t { connections = insert (some client_socket) connection t.connections })

-- The completion of the accept operation, which is armed again.
unfoldable pub accept_done : Option ℕ → Server → Server
unfolding handle_new_connection start_accept
accept_done none s = start_accept s
accept_done (some client_socket) s = start_accept (handle_new_connection client_socket s)

-- The completion of the connect operation to a peer.
unfoldable pub connect_done : Bool → ℕ → Peer → Server → Server
unfolding schedule_reconnect register_new_connection send_handshake
connect_done failed sock peer s =
    let connection = length s.objects in
    let t = make_connection sock (set_peer peer PeerState.connected (some connection) s) in
    if failed
    then schedule_reconnect peer (set_peer peer PeerState.disconnected peer.connection s)
    else send_handshake (record peer { connection = some connection })
        (register_new_connection connection
          (record t { socket_to_peer_id = insert (some sock) peer.id t.socket_to_peer_id }))

-- The peers have natural numbers as ids.
unfoldable pub register_identified_peer : ℤ → ℕ → Server → Server
unfolding close_socket
register_identified_peer (ℤ.negsuc n) connection s = close_socket connection s
register_identified_peer (ℤ.pos peer_id) connection s = elim (find peer_id s.peers_by_id) [
  | none ↦ close_socket connection s
  | some peer ↦
      let t = set_peer peer PeerState.connected (some connection) s in
      record t { socket_to_peer_id = insert (get_socket connection t) peer.id t.socket_to_peer_id }
]

-- `ReplicaManager::on_disconnect`: `none` is the exception of `peers_by_id_.at`.
unfoldable pub on_disconnect : ℕ → Server → Option Server
unfolding schedule_reconnect
on_disconnect connection s =
    let socket_fd = get_socket connection s in
    elim (find socket_fd s.socket_to_peer_id) [
      | none ↦ some s
      | some peer_id ↦ elim (find peer_id s.peers_by_id) [
        | none ↦ none
        | some peer ↦
            let t = set_peer peer PeerState.disconnected none s in
            let u = record t { socket_to_peer_id = erase socket_fd t.socket_to_peer_id } in
            some (if ltb peer.id u.self_id then schedule_reconnect peer u else u)
      ]
    ]

abbrev pub forget_connection : ℕ → Option Server → Option Server
forget_connection connection none = none
forget_connection connection (some s) =
    some (record s { connections = erase (get_socket connection s) s.connections })

unfoldable pub remove_connection : ℕ → Server → Option Server
unfolding on_disconnect
remove_connection connection s = forget_connection connection (on_disconnect connection s)

abbrev pub in_state_unidentified : ConnectionState → Bool
in_state_unidentified ConnectionState.unidentified = true
in_state_unidentified _ = false

abbrev pub is_unidentified : Option TcpConnection → Bool
is_unidentified none = false
is_unidentified (some c) = in_state_unidentified c.state

-- The bytes of a read. The first ones of a connection say what it is.
unfoldable pub received : List ℕ → ℕ → Server → Server
unfolding set_state register_identified_peer
received bytes connection s =
    if is_unidentified (find connection s.objects)
    then elim (handshake_id bytes) [
      | none ↦
          call (Callback.on_message connection bytes)
            (set_state ConnectionState.client connection s)
      | some peer_id ↦
          register_identified_peer peer_id connection (set_state ConnectionState.peer connection s)
    ]
    else call (Callback.on_message connection bytes) s

-- The completion of a read: it failed where its result is not positive.
unfoldable pub read_done : Bool → List ℕ → ℕ → Server → Option Server
unfolding received remove_connection start_reading
read_done failed bytes connection s =
    if failed
    then remove_connection connection (call (Callback.on_disconnect connection) s)
    else some (start_reading connection (received bytes connection s))

unfoldable pub write_done : Bool → ℕ → Server → Option Server
unfolding remove_connection
write_done failed connection s = if failed then remove_connection connection s else some s
