-- ===== src/Network/Events.antt =====
-- The life of the server of server/tcp_server.cpp and server/replica_manager.cpp: its start, the
-- calls of the replica, and the tasks and completions of the event loop.
use vsr_kv.Common.{
  ℕ, ◌≡◌, Bool, true, false, Option, none, some, List, [], ◌∷◌, ◌++◌, foldl, ltb, if◌then◌else◌,
}
use vsr_kv.Common.Map.{Map, find, insert, erase, nat_key}
use vsr_kv.Network.Sockets.{fd_key, Peer, Pending, Server, post, close_socket}
use vsr_kv.Network.Server.{
  attempt_connection, connect_to_peers, send, send_to_peer, broadcast_to_peers, start_accept,
  accept_done, connect_done, read_done, write_done,
}

abbrev pub emplace : Peer → Map ℕ Peer → Map ℕ Peer
emplace peer peers = elim (find peer.id peers) [ none ↦ insert peer.id peer peers | some q ↦ peers ]

-- The constructor of ReplicaManager: a peer whose id is there already is not taken.
unfoldable pub new_server : ℕ → List Peer → Server
new_server self_id peers = record {
  self_id = self_id;
  objects = [];
  connections = [];
  peers_by_id = foldl (λ m peer. emplace peer m) [] peers;
  socket_to_peer_id = [];
  port_to_peer_id = foldl (λ m peer. insert peer.port peer.id m) [] peers;
  pending = [];
  called = [];
}

-- `TcpServer::start`
unfoldable pub start : (ℕ → Option ℕ) → Server → Server
unfolding connect_to_peers start_accept
start sock s = connect_to_peers sock (start_accept s)

unfoldable pub add_peer : Option ℕ → Peer → Server → Server
unfolding attempt_connection
add_peer sock new_peer s =
    let t = record s {
      port_to_peer_id = insert new_peer.port new_peer.id s.port_to_peer_id;
      peers_by_id = insert new_peer.id new_peer s.peers_by_id;
    } in
    elim (find new_peer.id s.peers_by_id) [
      | some peer ↦ s
      | none ↦ if ltb new_peer.id s.self_id then attempt_connection sock new_peer t else t
    ]

abbrev close_connection : Option ℕ → Server → Server
unfolding close_socket
close_connection none s = s
close_connection (some connection) s = close_socket connection s

unfoldable pub remove_peer : ℕ → Server → Server
unfolding close_socket
remove_peer peer_id s = elim (find peer_id s.peers_by_id) [
  | none ↦ s
  | some peer ↦
      let t = close_connection peer.connection s in
      record t {
        port_to_peer_id = erase peer.port t.port_to_peer_id;
        peers_by_id = erase peer_id t.peers_by_id;
      }
]

-- How a task or an operation ends: what `socket` or `accept` returns, whether the result is an
-- error (for a read, not positive), and the bytes that were read.
pub record Outcome : Type 0 where
  pub socket : Option ℕ
  pub failed : Bool
  pub bytes : List ℕ

abbrev pub with_peer : (Peer → Server) → Option Peer → Option Server
with_peer f none = none
with_peer f (some peer) = some (f peer)

-- `none` is an exception, or a reference to a peer that is gone.
unfoldable pub fire : Outcome → Pending → Server → Option Server
unfolding start_accept accept_done connect_done attempt_connection read_done write_done
fire o Pending.accept_task s = some (post Pending.accept_submitted s)
fire o Pending.accept_submitted s = some (accept_done o.socket s)
fire o (Pending.connect_submitted id sock) s =
    with_peer (λ peer. connect_done o.failed sock peer s) (find id s.peers_by_id)
fire o (Pending.reconnect_timer id) s =
    with_peer (λ peer. attempt_connection o.socket peer s) (find id s.peers_by_id)
fire o (Pending.read_task connection) s = some (post (Pending.read_submitted connection) s)
fire o (Pending.read_submitted connection) s = read_done o.failed o.bytes connection s
fire o (Pending.write_task connection bytes) s =
    some (post (Pending.write_submitted connection bytes) s)
fire o (Pending.write_submitted connection bytes) s = write_done o.failed connection s

-- What goes to the ring of the event loop, and not to its list of tasks.
abbrev pub is_submission : Pending → Bool
is_submission Pending.accept_submitted = true
is_submission (Pending.connect_submitted id sock) = true
is_submission (Pending.reconnect_timer id) = true
is_submission (Pending.read_submitted connection) = true
is_submission (Pending.write_submitted connection bytes) = true
is_submission _ = false

-- What is pending completes in any order, and a submission for which the ring has no entry is
-- dropped with its callback (`if (!sqe) return`): here, at some point before it would complete.
-- The replica sends at any time, and the protocol handler closes the socket of a connection at
-- any time.
pub data Step : Server → Server → Type 0 where
  sends : (s : Server) (connection : ℕ) (bytes : List ℕ) → Step s (send connection bytes s)
  sends_to_peer : (s : Server) (id : ℕ) (bytes : List ℕ) → Step s (send_to_peer id bytes s)
  broadcasts :
      (s : Server) (bytes : List ℕ) (exclude_id : Option ℕ)
      → Step s (broadcast_to_peers bytes exclude_id s)
  closes : (s : Server) (connection : ℕ) → Step s (close_socket connection s)
  fires :
      (s t : Server) (before : List Pending) (p : Pending) (after : List Pending) (o : Outcome)
      → s.pending ≡ before ++ (p ∷ after)
      → fire o p (record s { pending = before ++ after }) ≡ some t
      → Step s t
  drops :
      (s : Server) (before : List Pending) (p : Pending) (after : List Pending)
      → s.pending ≡ before ++ (p ∷ after)
      → is_submission p ≡ true
      → Step s (record s { pending = before ++ after })

pub data Reach (self_id : ℕ) (peers : List Peer) : Server → Type 0 where
  started : (sock : ℕ → Option ℕ) → Reach self_id peers (start sock (new_server self_id peers))
  next : {s t : Server} → Reach self_id peers s → Step s t → Reach self_id peers t
