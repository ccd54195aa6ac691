-- ===== src/Network/Connecting.antt =====
-- Which of two replicas connects to the other.
use vsr_kv.Common.{
  ℕ, ◌≡◌, refl, sym, ap, ◌∙◌, ◌≢◌, inl, inr, Bool, true, false, not, ◌&&◌, ◌||◌, Option, none, some,
  List, [], ◌∷◌, ◌++◌, foldl, arith, ltb, ◌==◌, if◌then◌else◌, Bool-cases, All,
}
use vsr_kv.Common.Map.{Map, nat_key}
use vsr_kv.Network.Sockets.{fd_key, Peer, Pending, Server, post}
use vsr_kv.Network.Events.{start}
use vsr_kv.Network.Server.{
  is_disconnected, schedule_reconnect, attempt_connection, connect_to_peers, start_accept,
}

abbrev is_attempt : ℕ → Pending → Bool
is_attempt id (Pending.connect_submitted j sock) = j == id
is_attempt id (Pending.reconnect_timer j) = j == id
is_attempt id _ = false

-- Whether a connection to the peer has been started, or is tried again later.
abbrev pub attempts : ℕ → List Pending → Bool
attempts id [] = false
attempts id (p ∷ pending) = is_attempt id p || attempts id pending

-- Whether a peer with the id is among the entries.
abbrev pub knows : ℕ → Map ℕ Peer → Bool
knows id [] = false
knows id (entry ∷ peers) = (entry.1).id == id || knows id peers

abbrev pub Idle : ℕ × Peer → Type 0
Idle entry = is_disconnected (entry.1).state ≡ true

attempts-post :
    (id : ℕ) (pending : List Pending) (p : Pending)
    → attempts id (pending ++ (p ∷ [])) ≡ attempts id pending || is_attempt id p
attempts-post id [] p = ground arith
attempts-post id (q ∷ pending) p = ground (arith, attempts-post id pending p)

lower :
    (a : Bool) (j id self : ℕ)
    → ltb j self ≡ true
    → (a || j == id) ≡ (a || (ltb id self && j == id))
lower a j id self h = ground arith

not_lower : (a : Bool) (j id self : ℕ) → ltb j self ≡ false → a ≡ (a || (ltb id self && j == id))
not_lower a j id self h = ground arith

distributed : (a l e k : Bool) → ((a || (l && e)) || (l && k)) ≡ (a || (l && (e || k)))
distributed a l e k = ground arith

both : (l : Bool) → (false || (l && true)) ≡ l
both l = ground arith

one_less : (m n : ℕ) → m ≢ n → ltb n m ≡ not (ltb m n)
one_less m n h = ground arith

-- One round of the loop of `connect_to_peers`.
abbrev round : (ℕ → Option ℕ) → Server → ℕ × Peer → Server
round sock t entry =
    if ltb (entry.1).id t.self_id then attempt_connection (sock (entry.1).id) entry.1 t else t

attempted :
    (sock : Option ℕ) (peer : Peer) (s : Server) (id : ℕ)
    → is_disconnected peer.state ≡ true
    → let t = attempt_connection sock peer s in
      (t.self_id ≡ s.self_id) × (attempts id t.pending ≡ attempts id s.pending || peer.id == id)
unfolding attempt_connection schedule_reconnect
attempted none peer s id d =
    rw (attempt_connection, d) (refl, attempts-post id s.pending (Pending.reconnect_timer peer.id))
attempted (some fd) peer s id d =
    rw (attempt_connection, d)
      (refl, attempts-post id s.pending (Pending.connect_submitted peer.id fd))

round-lem :
    (sock : ℕ → Option ℕ) (s : Server) (entry : ℕ × Peer) (id : ℕ)
    → Idle entry
    → let t = round sock s entry in
      (t.self_id ≡ s.self_id)
      × (attempts id t.pending ≡ attempts id s.pending || (ltb id s.self_id && (entry.1).id == id))
round-lem sock s entry id d = elim (Bool-cases (ltb (entry.1).id s.self_id)) [
  | inl e ↦
      let (same, more) = attempted (sock (entry.1).id) entry.1 s id d in
      rw (round, e) (same, more ∙ lower (attempts id s.pending) (entry.1).id id s.self_id e)
  | inr e ↦ rw (round, e) (refl, not_lower (attempts id s.pending) (entry.1).id id s.self_id e)
]

rounds :
    (sock : ℕ → Option ℕ) (peers : Map ℕ Peer) (s : Server) (id : ℕ)
    → All Idle peers
    → attempts id (foldl (round sock) s peers).pending
      ≡ attempts id s.pending || (ltb id s.self_id && knows id peers)
rounds sock [] s id a = ground arith
rounds sock (entry ∷ peers) s id a =
    let (same, more) = round-lem sock s entry id (a.0) in
    rounds sock peers (round sock s entry) id a.1
    ∙ rw (same, more)
        (distributed (attempts id s.pending) (ltb id s.self_id) ((entry.1).id == id)
          (knows id peers))

connect_to_peers-attempts :
    (sock : ℕ → Option ℕ) (s : Server) (id : ℕ)
    → All Idle s.peers_by_id
    → knows id s.peers_by_id ≡ true
    → attempts id s.pending ≡ false
    → attempts id (connect_to_peers sock s).pending ≡ ltb id s.self_id
unfolding connect_to_peers
connect_to_peers-attempts sock s id a k n =
    rounds sock s.peers_by_id s id a ∙ rw (k, n) (both (ltb id s.self_id))

-- Of two replicas with different ids that know each other and have no connection yet, exactly
-- one tries to connect to the other when they start, whatever `socket` returns.
pub one_side_connects :
    (sock sock' : ℕ → Option ℕ) (s t : Server)
    → s.self_id ≢ t.self_id
    → All Idle s.peers_by_id
    → All Idle t.peers_by_id
    → knows t.self_id s.peers_by_id ≡ true
    → knows s.self_id t.peers_by_id ≡ true
    → s.pending ≡ []
    → t.pending ≡ []
    → attempts t.self_id (start sock s).pending ≡ not (attempts s.self_id (start sock' t).pending)
unfolding start start_accept
one_side_connects sock sock' s t d a b k l m n =
    connect_to_peers-attempts sock (post Pending.accept_task s) t.self_id a k (rw m refl)
    ∙ one_less s.self_id t.self_id d
    ∙ ap not (
        sym
          (connect_to_peers-attempts sock' (post Pending.accept_task t) s.self_id b l (rw n refl)))
