-- ===== src/Tests/Network.antt =====
-- Runs of the server with its peers.
use vsr_kv.Network.Sending.{written, broadcast_all, broadcasts_arrive}
use vsr_kv.Protocol.{ProtocolHandler}
use vsr_kv.Protocol.Stream.{FrameFits}
use vsr_kv.Protocol.Delivery.{Fed, receive}
use vsr_kv.Message.Codec.{sealed}
use vsr_kv.Tests.Data.{set_request, toy_blake3}
use vsr_kv.Common.{
  append-nil, ℕ, ◌+◌, ◌≡◌, refl, ◌≢◌, true, false, not, Option, none, some, List, [], ◌∷◌, ◌++◌,
  arith, All,
}
use vsr_kv.Common.Map.{Map, find, insert, nat_key}
use vsr_kv.Network.Sockets.{
  ConnectionState, TcpConnection, fd_key, PeerState, Peer, Pending, Server, get_socket,
}
use vsr_kv.Network.Server.{
  attempt_connection, connect_to_peers, start_accept, connect_done, register_new_connection,
  send_handshake, send, start_reading, broadcast_to_peers, received, read_done,
}
use vsr_kv.Network.Handshake.{handshake_msg}
use vsr_kv.Network.Events.{new_server, start, Outcome, fire, Step, Reach}
use vsr_kv.Network.Reached.{Fresh, fire_total, connected_has_connection}
use vsr_kv.Network.Identified.{Identified, received-handshake}
use vsr_kv.Network.Connecting.{attempts, one_side_connects}
use vsr_kv.Network.Broadcast.{broadcast_to_peers-writes}
use vsr_kv.Network.Stale.{GivenUp, stale_disconnect}

abbrev peer : ℕ → PeerState → Option ℕ → Peer
peer id state connection = record {
  id = id;
  host = [];
  port = 9080 + id;
  state = state;
  connection = connection;
}

abbrev new_peer : ℕ → Peer
new_peer id = peer id PeerState.disconnected none

abbrev others : List Peer
others = new_peer 0 ∷ new_peer 2 ∷ []

abbrev sock : ℕ → Option ℕ
sock id = some (5 + id)

abbrev began : Server
began = start sock (new_server 1 others)

fresh : All Fresh others
fresh = (refl, (refl, tt))

abbrev outcome : Outcome
outcome = record { socket = some 9; failed = false; bytes = [] }

fire_total_example :
    fire outcome
      (Pending.connect_submitted 0 5)
      (record began { pending = Pending.accept_task ∷ [] })
    ≢ none
unfolding start connect_to_peers start_accept attempt_connection new_server insert find
fire_total_example =
    fire_total {self_id = 1} {peers = others} fresh (Reach.started sock) (Pending.accept_task ∷ [])
      (Pending.connect_submitted 0 5) [] outcome refl

abbrev linked : Server
linked =
    connect_done false 5 (peer 0 PeerState.connecting none)
      (record began { pending = Pending.accept_task ∷ [] })

links : Step began linked
unfolding start connect_to_peers start_accept attempt_connection new_server insert find fire
links =
    Step.fires began linked (Pending.accept_task ∷ []) (Pending.connect_submitted 0 5) [] outcome
      refl refl

connected_has_connection_example :
    let zeroth = peer 0 PeerState.connected (some 0) in (zeroth.id ≡ 0) × (zeroth.connection ≢ none)
unfolding start connect_to_peers start_accept attempt_connection new_server insert find connect_done
    register_new_connection send_handshake send start_reading
connected_has_connection_example =
    connected_has_connection {self_id = 1} {peers = others} fresh
      (Reach.next (Reach.started sock) links) 0 (peer 0 PeerState.connected (some 0)) refl refl

abbrev object : ℕ → ConnectionState → TcpConnection
object fd state = record { socket_fd = some fd; state = state }

-- Replica 0 with two connections of replica 2, the second of which has brought nothing yet.
abbrev server : ConnectionState → Map (Option ℕ) ℕ → ℕ → Server
server state sockets connection = record {
  self_id = 0;
  objects = (0, object 5 ConnectionState.peer) ∷ (1, object 6 state) ∷ [];
  connections = (some 5, 0) ∷ (some 6, 1) ∷ [];
  peers_by_id = (1, new_peer 1) ∷ (2, peer 2 PeerState.connected (some connection)) ∷ [];
  socket_to_peer_id = sockets;
  port_to_peer_id = (9081, 1) ∷ (9082, 2) ∷ [];
  pending = [];
  called = [];
}

abbrev arrived : Server
arrived = server ConnectionState.unidentified ((some 5, 2) ∷ []) 0

received-handshake_example :
    Identified 1
      (peer 2 PeerState.connected (some 0))
      arrived
      (received (handshake_msg 2 ++ (b'x' ∷ b'y' ∷ [])) 1 arrived)
unfolding find
received-handshake_example =
    received-handshake 1 (peer 2 PeerState.connected (some 0)) (b'x' ∷ b'y' ∷ []) arrived refl refl
      (omega arith) refl

abbrev doubled : Server
doubled = server ConnectionState.peer ((some 5, 2) ∷ (some 6, 2) ∷ []) 1

stale_disconnect_example :
    (t : Server) × (read_done true [] 0 doubled ≡ some t) × GivenUp 1 2 (some 6) doubled t
unfolding find get_socket
stale_disconnect_example =
    stale_disconnect 0 1 2 (peer 2 PeerState.connected (some 1)) [] doubled refl refl (omega arith)
      refl refl refl refl (λ h. cc)

one_side_connects_example :
    attempts 2 (start sock (new_server 1 others)).pending
    ≡ not (attempts 1 (start sock (new_server 2 (new_peer 0 ∷ new_peer 1 ∷ []))).pending)
unfolding new_server insert find
one_side_connects_example =
    one_side_connects sock sock (new_server 1 others) (new_server 2 (new_peer 0 ∷ new_peer 1 ∷ []))
      (omega arith) (refl, (refl, tt)) (refl, (refl, tt)) refl refl refl refl

broadcast_to_peers-writes_example :
    broadcast_to_peers (b'x' ∷ []) none doubled
    ≡ record doubled { pending = Pending.write_task 1 (b'x' ∷ []) ∷ [] }
broadcast_to_peers-writes_example = broadcast_to_peers-writes (b'x' ∷ []) none doubled (omega arith)

request-FrameFits : FrameFits set_request
request-FrameFits = record { fits = omega arith; limit = omega arith }

abbrev silent : ProtocolHandler
silent = record { connection_buffers = []; received = []; closed = [] }

-- The bytes arrive in one read.
broadcasts_arrive_example :
    Fed 6 silent (sealed toy_blake3 set_request ∷ sealed toy_blake3 set_request ∷ []) [] (
      receive toy_blake3 6
        (written 1 (broadcast_all toy_blake3 (set_request ∷ set_request ∷ []) doubled).pending ∷ [])
        silent)
unfolding find
broadcasts_arrive_example =
    broadcasts_arrive toy_blake3 1 6 (set_request ∷ set_request ∷ []) doubled
      (written 1 (broadcast_all toy_blake3 (set_request ∷ set_request ∷ []) doubled).pending ∷ [])
      silent (omega arith) refl refl (request-FrameFits, (request-FrameFits, tt)) (append-nil _)
      refl
