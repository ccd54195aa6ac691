-- ===== src/Network/Sockets.antt =====
-- server/tcp_connection.hpp, server/replica_manager.hpp and server/tcp_server.hpp: the data.
use vsr_kv.Common.{
  ℕ, ◌≡◌, refl, ◌↔◌, Bool, true, false, not, ◌&&◌, Option, none, some, List, [], ◌∷◌, ◌++◌, arith,
  ltb,
}
use vsr_kv.Common.Map.{Map, Key, find, insert, nat_key}

-- `State` of TcpConnection
pub data ConnectionState : Type 0 where
  unidentified peer client : ConnectionState

-- `get_socket()` is `none` for -1, once the socket has been closed.
pub record TcpConnection : Type 0 where
  pub socket_fd : Option ℕ
  pub state : ConnectionState

abbrev fd_lt : Option ℕ → Option ℕ → Bool
fd_lt none none = false
fd_lt none (some n) = true
fd_lt (some m) none = false
fd_lt (some m) (some n) = ltb m n

pub fd_equiv_iff : (a b : Option ℕ) → ((not (fd_lt a b) && not (fd_lt b a)) ≡ true) ↔ (a ≡ b)
fd_equiv_iff none none = (λ h. refl, λ h. refl)
fd_equiv_iff none (some n) = ground arith
fd_equiv_iff (some m) none = ground arith
fd_equiv_iff (some m) (some n) = ground arith

instance abbrev pub fd_key : Key (Option ℕ)
fd_key = record { lt = fd_lt; equiv_iff = fd_equiv_iff }

-- `State` of Peer
pub data PeerState : Type 0 where
  disconnected connecting connected : PeerState

pub record Peer : Type 0 where
  pub id : ℕ
  pub host : List ℕ
  pub port : ℕ
  pub state : PeerState
  pub connection : Option ℕ

-- A task that has been posted, or an operation that has been submitted and has not completed. A
-- connection is the number of its object. The reference to a peer that a callback keeps is the
-- id of the peer.
pub data Pending : Type 0 where
  accept_task accept_submitted : Pending
  connect_submitted : ℕ → ℕ → Pending
  reconnect_timer : ℕ → Pending
  read_task read_submitted : ℕ → Pending
  write_task write_submitted : ℕ → List ℕ → Pending

pub data Callback : Type 0 where
  on_connect on_disconnect : ℕ → Callback
  on_message : ℕ → List ℕ → Callback

-- The server with its ReplicaManager. `objects` holds the TcpConnection objects, which the maps,
-- the peers and the callbacks share; the callbacks that were called are kept in their order.
pub record Server : Type 0 where
  pub self_id : ℕ
  pub objects : Map ℕ TcpConnection
  pub connections : Map (Option ℕ) ℕ
  pub peers_by_id : Map ℕ Peer
  pub socket_to_peer_id : Map (Option ℕ) ℕ
  pub port_to_peer_id : Map ℕ ℕ
  pub pending : List Pending
  pub called : List Callback

abbrev pub post : Pending → Server → Server
post p s = record s { pending = s.pending ++ (p ∷ []) }

abbrev pub call : Callback → Server → Server
call f s = record s { called = s.called ++ (f ∷ []) }

abbrev pub socket_of : Option TcpConnection → Option ℕ
socket_of none = none
socket_of (some c) = c.socket_fd

unfoldable pub get_socket : ℕ → Server → Option ℕ
get_socket connection s = socket_of (find connection s.objects)

unfoldable pub change_object : (TcpConnection → TcpConnection) → ℕ → Server → Server
change_object f connection s = elim (find connection s.objects) [
  | none ↦ s
  | some c ↦ record s { objects = insert connection (f c) s.objects }
]

unfoldable pub close_socket : ℕ → Server → Server
unfolding change_object
close_socket = change_object (λ c. record c { socket_fd = none })

unfoldable pub set_state : ConnectionState → ℕ → Server → Server
unfolding change_object
set_state new_state = change_object (λ c. record c { state = new_state })
