-- ===== src/Network/Safety.antt =====
-- The invariant of the server: a connected peer has a connection, and whatever the maps and the
-- callbacks refer to is there.
use vsr_kv.Common.{
  ℕ, ◌≡◌, refl, ◌≢◌, inl, inr, true, Option, none, some, List, [], ◌∷◌, foldl, ltb, if◌then◌else◌,
  Bool-cases, Option-cases, All, All-append,
}
use vsr_kv.Common.Map.{Map, find, insert, erase, equiv, find-insert, nat_key}
use vsr_kv.Common.Map.Every.{insert-All, erase-All}
use vsr_kv.Network.Sockets.{
  TcpConnection, fd_key, PeerState, Peer, Pending, Server, post, change_object,
}
use vsr_kv.Network.Server.{
  set_peer, is_disconnected, is_connected, schedule_reconnect, attempt_connection, connect_to_peers,
  send, send_to_peer, excluded, broadcast_to_peers,
}

abbrev pub IsKnown : Map ℕ Peer → ℕ → Type 0
IsKnown peers id = find id peers ≢ none

-- An entry of the map of the peers.
pub record PeerInv (entry : ℕ × Peer) : Type 0 where
  pub key : (entry.1).id ≡ entry.0
  pub has_connection : is_connected (entry.1).state ≡ true → (entry.1).connection ≢ none

abbrev pub SocketInv : Map ℕ Peer → Option ℕ × ℕ → Type 0
SocketInv peers entry = IsKnown peers entry.1

abbrev pub PendingInv : Map ℕ Peer → Pending → Type 0
PendingInv peers (Pending.connect_submitted id sock) = IsKnown peers id
PendingInv peers (Pending.reconnect_timer id) = IsKnown peers id
PendingInv peers _ = Unit

pub record Invariant (peers : Map ℕ Peer) (sockets : Map (Option ℕ) ℕ) (pending : List Pending)
    : Type 0 where
  pub peers_hold : All PeerInv peers
  pub sockets_hold : All (SocketInv peers) sockets
  pub pending_hold : All (PendingInv peers) pending

abbrev pub Inv : Server → Type 0
Inv s = Invariant s.peers_by_id s.socket_to_peer_id s.pending

All-map {ℓ κ} :
    {A : Type ℓ} {P Q : A → Type κ} (xs : List A) → ((x : A) → P x → Q x) → All P xs → All Q xs
All-map [] f a = tt
All-map (x ∷ xs) f a = (f x (a.0), All-map xs f a.1)

some-IsSome : {A : Type 0} {a : A} → some a ≢ none
some-IsSome h = cc

pub insert-IsKnown : (id : ℕ) (peer : Peer) (peers : Map ℕ Peer) → IsKnown (insert id peer peers) id
insert-IsKnown id peer peers =
    rw (find-insert id id peer peers, (nat_key.equiv_iff id id).1 refl) some-IsSome

pub keeps-IsKnown :
    (id j : ℕ) (peer : Peer) (peers : Map ℕ Peer)
    → IsKnown peers j
    → IsKnown (insert id peer peers) j
keeps-IsKnown id j peer peers h = elim (Bool-cases (equiv j id)) [
  | inl e ↦ rw (find-insert id j peer peers, e) some-IsSome
  | inr e ↦ rw (find-insert id j peer peers, e) h
]

keeps-PendingInv :
    (id : ℕ) (peer : Peer) (peers : Map ℕ Peer) (p : Pending)
    → PendingInv peers p
    → PendingInv (insert id peer peers) p
keeps-PendingInv id peer peers (Pending.connect_submitted j sock) h =
    keeps-IsKnown id j peer peers h
keeps-PendingInv id peer peers (Pending.reconnect_timer j) h = keeps-IsKnown id j peer peers h
keeps-PendingInv id peer peers _ h = tt

pub post-Inv : (p : Pending) (s : Server) → PendingInv s.peers_by_id p → Inv s → Inv (post p s)
post-Inv p s h i = record {
  peers_hold = i.peers_hold;
  sockets_hold = i.sockets_hold;
  pending_hold = All-append (PendingInv s.peers_by_id) s.pending (p ∷ []) i.pending_hold (h, tt);
}

pub set_peer-Inv :
    (peer : Peer) (state : PeerState) (connection : Option ℕ) (s : Server)
    → (is_connected state ≡ true → connection ≢ none)
    → Inv s
    → Inv (set_peer peer state connection s)
set_peer-Inv peer state connection s h i =
    let new_peer = record peer { state = state; connection = connection } in
    record {
      peers_hold =
          insert-All PeerInv peer.id new_peer s.peers_by_id
            (record { key = refl; has_connection = h }) i.peers_hold;
      sockets_hold =
          All-map s.socket_to_peer_id
            (λ entry k. keeps-IsKnown peer.id entry.1 new_peer s.peers_by_id k) i.sockets_hold;
      pending_hold =
          All-map s.pending (λ p k. keeps-PendingInv peer.id new_peer s.peers_by_id p k)
            i.pending_hold;
    }

pub assign_socket-Inv :
    (fd : Option ℕ) (id : ℕ) (s : Server)
    → IsKnown s.peers_by_id id
    → Inv s
    → Inv (record s { socket_to_peer_id = insert fd id s.socket_to_peer_id })
assign_socket-Inv fd id s k i = record {
  peers_hold = i.peers_hold;
  sockets_hold = insert-All (SocketInv s.peers_by_id) fd id s.socket_to_peer_id k i.sockets_hold;
  pending_hold = i.pending_hold;
}

pub erase_socket-Inv :
    (fd : Option ℕ) (s : Server)
    → Inv s
    → Inv (record s { socket_to_peer_id = erase fd s.socket_to_peer_id })
erase_socket-Inv fd s i = record {
  peers_hold = i.peers_hold;
  sockets_hold = erase-All (SocketInv s.peers_by_id) fd s.socket_to_peer_id i.sockets_hold;
  pending_hold = i.pending_hold;
}

pub change_object-Inv :
    (f : TcpConnection → TcpConnection) (connection : ℕ) (s : Server)
    → Inv s
    → Inv (change_object f connection s)
unfolding change_object
change_object-Inv f connection s i = elim (Option-cases (find connection s.objects)) [
  | inl e ↦ rw (change_object, e) i
  | inr (c, e) ↦ rw (change_object, e) i
]

-- An assignment to a peer and a reference to it.
pub set_and_post-Inv :
    (peer : Peer) (state : PeerState) (connection : Option ℕ) (p : Pending) (s : Server)
    → (is_connected state ≡ true → connection ≢ none)
    → ((peers : Map ℕ Peer) → IsKnown peers peer.id → PendingInv peers p)
    → Inv s
    → Inv (post p (set_peer peer state connection s))
set_and_post-Inv peer state connection p s h k i =
    let new_peer = record peer { state = state; connection = connection } in
    post-Inv p (set_peer peer state connection s)
      (k _ (insert-IsKnown peer.id new_peer s.peers_by_id))
      (set_peer-Inv peer state connection s h i)

pub attempt_connection-Inv :
    (sock : Option ℕ) (peer : Peer) (s : Server) → Inv s → Inv (attempt_connection sock peer s)
unfolding attempt_connection schedule_reconnect
attempt_connection-Inv sock peer s i = elim (Bool-cases (is_disconnected peer.state)) [
  | inl e ↦ rw e (by_socket sock)
  | inr e ↦ rw e i
]
  where
    by_socket :
        (fd : Option ℕ)
        → Inv (elim fd [
          | none ↦
              post
                (Pending.reconnect_timer peer.id)
                (set_peer peer PeerState.disconnected peer.connection s)
          | some fd ↦
              post
                (Pending.connect_submitted peer.id fd)
                (set_peer peer PeerState.connecting peer.connection s)
        ])
    by_socket none =
        set_and_post-Inv peer PeerState.disconnected peer.connection
          (Pending.reconnect_timer peer.id) s (λ h. cc) (λ peers k. k) i
    by_socket (some fd) =
        set_and_post-Inv peer PeerState.connecting peer.connection
          (Pending.connect_submitted peer.id fd) s (λ h. cc) (λ peers k. k) i

foldl-Inv :
    {A : Type 0} (f : Server → A → Server) (xs : List A) (s : Server)
    → ((t : Server) (x : A) → Inv t → Inv (f t x))
    → Inv s
    → Inv (foldl f s xs)
foldl-Inv f [] s h i = i
foldl-Inv f (x ∷ xs) s h i = foldl-Inv f xs (f s x) h (h s x i)

pub connect_to_peers-Inv :
    (sock : ℕ → Option ℕ) (s : Server) → Inv s → Inv (connect_to_peers sock s)
unfolding connect_to_peers
connect_to_peers-Inv sock s i =
    foldl-Inv _ s.peers_by_id s
      (λ t entry j. elim (Bool-cases (ltb (entry.1).id t.self_id)) [
        | inl e ↦ rw e (attempt_connection-Inv (sock (entry.1).id) entry.1 t j)
        | inr e ↦ rw e j
      ])
      i

pub send_to_peer-Inv :
    (id : ℕ) (bytes : List ℕ) (s : Server) → Inv s → Inv (send_to_peer id bytes s)
unfolding send_to_peer send
send_to_peer-Inv id bytes s i = to_found (find id s.peers_by_id)
  where
    to_connection :
        (peer : Peer) (connection : Option ℕ)
        → Inv (elim connection [
          | none ↦ s
          | some c ↦ if is_connected peer.state then send c bytes s else s
        ])
    to_connection peer none = i
    to_connection peer (some c) = elim (Bool-cases (is_connected peer.state)) [
      | inl e ↦ rw e (post-Inv (Pending.write_task c bytes) s tt i)
      | inr e ↦ rw e i
    ]

    to_found :
        (found : Option Peer)
        → Inv (elim found [
          | none ↦ s
          | some peer ↦ elim (peer.connection) [
            | none ↦ s
            | some c ↦ if is_connected peer.state then send c bytes s else s
          ]
        ])
    to_found none = i
    to_found (some peer) = to_connection peer peer.connection

pub broadcast_to_peers-Inv :
    (bytes : List ℕ) (exclude_id : Option ℕ) (s : Server)
    → Inv s
    → Inv (broadcast_to_peers bytes exclude_id s)
unfolding broadcast_to_peers
broadcast_to_peers-Inv bytes exclude_id s i =
    foldl-Inv _ s.peers_by_id s
      (λ t entry j. elim (Bool-cases (excluded exclude_id entry.0)) [
        | inl e ↦ rw e j
        | inr e ↦ rw e (send_to_peer-Inv entry.0 bytes t j)
      ])
      i
