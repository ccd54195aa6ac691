-- ===== src/Network/Completions.antt =====
-- Every completion keeps the invariant of the server, and none throws or follows a reference that
-- is gone.
use vsr_kv.Common.{
  ℕ, ◌≡◌, refl, sym, subst, ◌≢◌, inl, inr, Bool, true, false, Option, none, some, List, ltb,
  if◌then◌else◌, Bool-cases, Option-cases, length,
}
use vsr_kv.Common.Map.{find, insert, erase, nat_key}
use vsr_kv.Common.Map.Every.{find-All}
use vsr_kv.Network.Sockets.{
  fd_key, PeerState, Peer, Pending, Callback, Server, post, call, get_socket, close_socket,
  set_state,
}
use vsr_kv.Network.Server.{
  set_peer, is_connected, schedule_reconnect, send, send_handshake, start_reading, start_accept,
  register_new_connection, handle_new_connection, accept_done, connect_done,
  register_identified_peer, on_disconnect, forget_connection, remove_connection, is_unidentified,
  received, read_done, write_done,
}
use vsr_kv.Network.Handshake.{ℤ, handshake_id}
use vsr_kv.Network.Safety.{
  IsKnown, Inv, insert-IsKnown, post-Inv, set_peer-Inv, assign_socket-Inv, erase_socket-Inv,
  change_object-Inv, set_and_post-Inv,
}

-- The result is no exception, and has the invariant.
abbrev pub Safe : Option Server → Type 0
Safe none = ⊥
Safe (some s) = Inv s

pub connect_done-Inv :
    (failed : Bool) (sock : ℕ) (peer : Peer) (s : Server)
    → (is_connected peer.state ≡ true → peer.connection ≢ none)
    → Inv s
    → Inv (connect_done failed sock peer s)
unfolding connect_done schedule_reconnect register_new_connection start_reading send_handshake send
connect_done-Inv true sock peer s h i =
    set_and_post-Inv peer PeerState.disconnected peer.connection (Pending.reconnect_timer peer.id) s
      (λ e. cc) (λ peers k. k) i
connect_done-Inv false sock peer s h i =
    let connection = length s.objects in
    let t = set_peer peer PeerState.connected (some connection) s in
    let u = record t { socket_to_peer_id = insert (some sock) peer.id t.socket_to_peer_id } in
    let j : Inv u =
      assign_socket-Inv (some sock) peer.id t
        (insert-IsKnown peer.id
          (record peer { state = PeerState.connected; connection = some connection }) s.peers_by_id)
        (set_peer-Inv peer PeerState.connected (some connection) s (λ e n. cc) i) in
    post-Inv (Pending.write_task connection _) (post (Pending.read_task connection) u) tt
      (post-Inv (Pending.read_task connection) u tt j)

pub accept_done-Inv : (socket : Option ℕ) (s : Server) → Inv s → Inv (accept_done socket s)
unfolding accept_done start_accept handle_new_connection start_reading
accept_done-Inv none s i = post-Inv Pending.accept_task s tt i
accept_done-Inv (some fd) s i =
    post-Inv Pending.accept_task (post (Pending.read_task (length s.objects)) s) tt
      (post-Inv (Pending.read_task (length s.objects)) s tt i)

register_identified_peer-Inv :
    (id : ℤ) (connection : ℕ) (s : Server) → Inv s → Inv (register_identified_peer id connection s)
unfolding register_identified_peer close_socket
register_identified_peer-Inv (ℤ.negsuc n) connection s i = change_object-Inv _ connection s i
register_identified_peer-Inv (ℤ.pos id) connection s i =
    elim (Option-cases (find id s.peers_by_id)) [
      | inl e ↦ rw (register_identified_peer, e) (change_object-Inv _ connection s i)
      | inr (peer, e) ↦
          let t = set_peer peer PeerState.connected (some connection) s in
          rw (register_identified_peer, e)
            (assign_socket-Inv (get_socket connection t) peer.id t
              (insert-IsKnown peer.id
                (record peer { state = PeerState.connected; connection = some connection })
                s.peers_by_id)
              (set_peer-Inv peer PeerState.connected (some connection) s (λ e n. cc) i))
    ]

-- The server after `on_disconnect` has found the peer of the socket.
abbrev pub marked_disconnected : Option ℕ → Peer → Server → Server
marked_disconnected socket_fd peer s =
    let t = set_peer peer PeerState.disconnected none s in
    record t { socket_to_peer_id = erase socket_fd t.socket_to_peer_id }

marked_disconnected-Inv :
    (socket_fd : Option ℕ) (peer : Peer) (s : Server)
    → Inv s
    → Inv (marked_disconnected socket_fd peer s)
marked_disconnected-Inv socket_fd peer s i =
    erase_socket-Inv socket_fd (set_peer peer PeerState.disconnected none s)
      (set_peer-Inv peer PeerState.disconnected none s (λ e. cc) i)

pub on_disconnect_unknown :
    (connection : ℕ) (s : Server)
    → find (get_socket connection s) s.socket_to_peer_id ≡ none
    → on_disconnect connection s ≡ some s
unfolding on_disconnect
on_disconnect_unknown connection s e = rw (on_disconnect, e) refl

pub on_disconnect_known :
    (connection id : ℕ) (peer : Peer) (s : Server)
    → find (get_socket connection s) s.socket_to_peer_id ≡ some id
    → find id s.peers_by_id ≡ some peer
    → let t = marked_disconnected (get_socket connection s) peer s in
      on_disconnect connection s
      ≡ some (if ltb peer.id s.self_id then schedule_reconnect peer t else t)
unfolding on_disconnect
on_disconnect_known connection id peer s e n = rw (on_disconnect, e, n) refl

rearmed-Inv :
    (connection : ℕ) (peer : Peer) (s : Server)
    → Inv s
    → let t = marked_disconnected (get_socket connection s) peer s in
      Inv (if ltb peer.id s.self_id then schedule_reconnect peer t else t)
unfolding schedule_reconnect
rearmed-Inv connection peer s i =
    let socket_fd = get_socket connection s in
    elim (Bool-cases (ltb peer.id s.self_id)) [
      | inl l ↦ rw l (
          post-Inv (Pending.reconnect_timer peer.id) (marked_disconnected socket_fd peer s)
            (insert-IsKnown peer.id
              (record peer { state = PeerState.disconnected; connection = none }) s.peers_by_id)
            (marked_disconnected-Inv socket_fd peer s i))
      | inr l ↦ rw l (marked_disconnected-Inv socket_fd peer s i)
    ]

on_disconnect-Safe : (connection : ℕ) (s : Server) → Inv s → Safe (on_disconnect connection s)
on_disconnect-Safe connection s i =
    elim (Option-cases (find (get_socket connection s) s.socket_to_peer_id)) [
      | inl e ↦ subst Safe (sym (on_disconnect_unknown connection s e)) i
      | inr (id, e) ↦ elim (Option-cases (find id s.peers_by_id)) [
        | inl n ↦ absurd (
            find-All (λ entry. IsKnown s.peers_by_id entry.1) _ id s.socket_to_peer_id
              i.sockets_hold e n)
        | inr (peer, n) ↦
            subst Safe (sym (on_disconnect_known connection id peer s e n))
              (rearmed-Inv connection peer s i)
      ]
    ]

forget_connection-Safe :
    (connection : ℕ) (r : Option Server) → Safe r → Safe (forget_connection connection r)
forget_connection-Safe connection none h = h
forget_connection-Safe connection (some s) i = i

remove_connection-Safe :
    (connection : ℕ) (s : Server) → Inv s → Safe (remove_connection connection s)
unfolding remove_connection
remove_connection-Safe connection s i =
    forget_connection-Safe connection (on_disconnect connection s)
      (on_disconnect-Safe connection s i)

received-Inv :
    (bytes : List ℕ) (connection : ℕ) (s : Server) → Inv s → Inv (received bytes connection s)
unfolding received set_state
received-Inv bytes connection s i =
    elim (Bool-cases (is_unidentified (find connection s.objects))) [
      | inl e ↦ elim (Option-cases (handshake_id bytes)) [
        | inl n ↦ rw (received, e, n) (change_object-Inv _ connection s i)
        | inr (id, n) ↦
            rw (received, e, n)
              (register_identified_peer-Inv id connection _ (change_object-Inv _ connection s i))
      ]
      | inr e ↦ rw (received, e) i
    ]

pub read_done-Safe :
    (failed : Bool) (bytes : List ℕ) (connection : ℕ) (s : Server)
    → Inv s
    → Safe (read_done failed bytes connection s)
unfolding read_done start_reading
read_done-Safe true bytes connection s i =
    remove_connection-Safe connection (call (Callback.on_disconnect connection) s) i
read_done-Safe false bytes connection s i =
    post-Inv (Pending.read_task connection) (received bytes connection s) tt
      (received-Inv bytes connection s i)

pub write_done-Safe :
    (failed : Bool) (connection : ℕ) (s : Server) → Inv s → Safe (write_done failed connection s)
unfolding write_done
write_done-Safe true connection s i = remove_connection-Safe connection s i
write_done-Safe false connection s i = i
