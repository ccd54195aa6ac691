-- ===== src/Network/Reached.antt =====
-- The invariant holds of a server from its start on, and nothing that the event loop completes
-- throws or follows a reference that is gone.
use vsr_kv.Common.{
  ℕ, ◌≡◌, refl, sym, subst, ◌≢◌, inl, inr, true, false, Option, none, some, List, [], ◌∷◌, ◌++◌,
  foldl, Option-cases, All,
}
use vsr_kv.Common.Map.{Map, find, nat_key}
use vsr_kv.Common.Map.Every.{insert-All, find-All}
use vsr_kv.Network.Sockets.{fd_key, Peer, Pending, Server, post, close_socket}
use vsr_kv.Network.Server.{is_connected, attempt_connection, send, start_accept, connect_done}
use vsr_kv.Network.Events.{emplace, new_server, start, Outcome, with_peer, fire, Step, Reach}
use vsr_kv.Network.Safety.{
  IsKnown, PeerInv, PendingInv, Inv, post-Inv, attempt_connection-Inv, connect_to_peers-Inv,
  change_object-Inv, send_to_peer-Inv, broadcast_to_peers-Inv,
}
use vsr_kv.Network.Completions.{
  Safe, connect_done-Inv, accept_done-Inv, read_done-Safe, write_done-Safe,
}

with_peer-Safe :
    (f : Peer → Server) (id : ℕ) (s : Server)
    → IsKnown s.peers_by_id id
    → Inv s
    → ((peer : Peer) → (is_connected peer.state ≡ true → peer.connection ≢ none) → Inv (f peer))
    → Safe (with_peer f (find id s.peers_by_id))
with_peer-Safe f id s k i h = elim (Option-cases (find id s.peers_by_id)) [
  | inl e ↦ absurd (k e)
  | inr (peer, e) ↦
      subst (λ r. Safe (with_peer f r)) (sym e)
        (h peer ((find-All PeerInv id peer s.peers_by_id i.peers_hold e).has_connection))
]

fire-Safe :
    (o : Outcome) (p : Pending) (s : Server)
    → PendingInv s.peers_by_id p
    → Inv s
    → Safe (fire o p s)
unfolding fire
fire-Safe o Pending.accept_task s k i = post-Inv Pending.accept_submitted s tt i
fire-Safe o Pending.accept_submitted s k i = accept_done-Inv o.socket s i
fire-Safe o (Pending.connect_submitted id sock) s k i =
    with_peer-Safe (λ peer. connect_done o.failed sock peer s) id s k i
      (λ peer h. connect_done-Inv o.failed sock peer s h i)
fire-Safe o (Pending.reconnect_timer id) s k i =
    with_peer-Safe (λ peer. attempt_connection o.socket peer s) id s k i
      (λ peer h. attempt_connection-Inv o.socket peer s i)
fire-Safe o (Pending.read_task connection) s k i =
    post-Inv (Pending.read_submitted connection) s tt i
fire-Safe o (Pending.read_submitted connection) s k i =
    read_done-Safe o.failed o.bytes connection s i
fire-Safe o (Pending.write_task connection bytes) s k i =
    post-Inv (Pending.write_submitted connection bytes) s tt i
fire-Safe o (Pending.write_submitted connection bytes) s k i =
    write_done-Safe o.failed connection s i

All-split {ℓ κ} :
    {A : Type ℓ} (P : A → Type κ) (xs : List A) (x : A) (ys : List A)
    → All P (xs ++ (x ∷ ys))
    → P x × All P (xs ++ ys)
All-split P [] x ys a = a
All-split P (z ∷ xs) x ys a = let (p, b) = All-split P xs x ys (a.1) in (p, (a.0, b))

All-removed {ℓ κ} :
    {A : Type ℓ} (P : A → Type κ) (xs : List A) (x : A) (ys : List A) {zs : List A}
    → zs ≡ xs ++ (x ∷ ys)
    → All P zs
    → P x × All P (xs ++ ys)
All-removed P xs x ys e a = All-split P xs x ys (subst (All P) e a)

dropped-Inv :
    (s : Server) (before : List Pending) (p : Pending) (after : List Pending)
    → Inv s
    → s.pending ≡ before ++ (p ∷ after)
    → Inv (record s { pending = before ++ after })
dropped-Inv s before p after i e = record {
  peers_hold = i.peers_hold;
  sockets_hold = i.sockets_hold;
  pending_hold = (All-removed (PendingInv s.peers_by_id) before p after e i.pending_hold).1;
}

fired-Safe :
    (s : Server) (before : List Pending) (p : Pending) (after : List Pending) (o : Outcome)
    → Inv s
    → s.pending ≡ before ++ (p ∷ after)
    → Safe (fire o p (record s { pending = before ++ after }))
fired-Safe s before p after o i e =
    fire-Safe o p (record s { pending = before ++ after })
      (All-removed (PendingInv s.peers_by_id) before p after e i.pending_hold).0
      (dropped-Inv s before p after i e)

-- How the peers come to the constructor.
abbrev pub Fresh : Peer → Type 0
Fresh peer = is_connected peer.state ≡ false

emplaced :
    (peers : List Peer) (m : Map ℕ Peer)
    → All Fresh peers
    → All PeerInv m
    → All PeerInv (foldl (λ m peer. emplace peer m) m peers)
emplaced [] m f a = a
emplaced (peer ∷ peers) m f a =
    emplaced peers (emplace peer m) f.1 (elim (Option-cases (find peer.id m)) [
      | inl e ↦
          rw (emplace, e)
            (insert-All PeerInv peer.id peer m
              (record { key = refl; has_connection = λ c. cc (c, f.0) }) a)
      | inr (q, e) ↦ rw (emplace, e) a
    ])

new_server-Inv :
    (self_id : ℕ) (peers : List Peer) → All Fresh peers → Inv (new_server self_id peers)
unfolding new_server
new_server-Inv self_id peers f = record {
  peers_hold = emplaced peers [] f tt;
  sockets_hold = tt;
  pending_hold = tt;
}

close_socket-Inv : (connection : ℕ) (s : Server) → Inv s → Inv (close_socket connection s)
unfolding close_socket
close_socket-Inv connection s i =
    change_object-Inv (λ c. record c { socket_fd = none }) connection s i

Step-Inv : {s t : Server} → Step s t → Inv s → Inv t
unfolding send
Step-Inv (Step.sends s connection bytes) i = post-Inv (Pending.write_task connection bytes) s tt i
Step-Inv (Step.sends_to_peer s id bytes) i = send_to_peer-Inv id bytes s i
Step-Inv (Step.broadcasts s bytes exclude_id) i = broadcast_to_peers-Inv bytes exclude_id s i
Step-Inv (Step.closes s connection) i = close_socket-Inv connection s i
Step-Inv (Step.drops s before p after e h) i = dropped-Inv s before p after i e
Step-Inv (Step.fires s t before p after o e r) i = subst Safe r (fired-Safe s before p after o i e)

reached_Inv :
    {self_id : ℕ} {peers : List Peer} {s : Server} → All Fresh peers → Reach self_id peers s → Inv s
unfolding start start_accept
reached_Inv {self_id = self_id} {peers = peers} f (Reach.started sock) =
    connect_to_peers-Inv sock (post Pending.accept_task (new_server self_id peers))
      (post-Inv Pending.accept_task (new_server self_id peers) tt (new_server-Inv self_id peers f))
reached_Inv f (Reach.next r step) = Step-Inv step (reached_Inv f r)

Safe-some : (r : Option Server) → Safe r → r ≢ none
Safe-some none h e = h
Safe-some (some s) h e = cc

-- For peers that are not connected when they come to the constructor: in every state of the
-- server, no pending task or operation throws or follows a reference to a peer that is gone,
-- however it ends.
pub fire_total :
    {self_id : ℕ} {peers : List Peer} {s : Server}
    → All Fresh peers
    → Reach self_id peers s
    → (before : List Pending) (p : Pending) (after : List Pending) (o : Outcome)
    → s.pending ≡ before ++ (p ∷ after)
    → fire o p (record s { pending = before ++ after }) ≢ none
fire_total {s = s} f r before p after o e =
    Safe-some (fire o p (record s { pending = before ++ after }))
      (fired-Safe s before p after o (reached_Inv f r) e)

-- For peers that are not connected when they come to the constructor: in every state of the
-- server, a peer that is marked as connected has a connection, and stands under its id.
pub connected_has_connection :
    {self_id : ℕ} {peers : List Peer} {s : Server}
    → All Fresh peers
    → Reach self_id peers s
    → (id : ℕ) (peer : Peer) → find id s.peers_by_id ≡ some peer
    → is_connected peer.state ≡ true
    → (peer.id ≡ id) × (peer.connection ≢ none)
connected_has_connection {s = s} f r id peer e c =
    let h = find-All PeerInv id peer s.peers_by_id ((reached_Inv f r).peers_hold) e in
    (h.key, h.has_connection c)
