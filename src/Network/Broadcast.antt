-- ===== src/Network/Broadcast.antt =====
-- What a broadcast sends.
use vsr_kv.Common.{
  ℕ, suc, ◌≤◌, ◌≡◌, refl, sym, ap, ◌∙◌, Bool, true, false, not, ◌&&◌, Option, none, some, List, [],
  ◌∷◌, ◌++◌, foldl, append-nil, append_assoc, arith, if◌then◌else◌, All,
}
use vsr_kv.Common.Map.{Map, find, nat_key}
use vsr_kv.Network.Sockets.{fd_key, Peer, Pending, Server}
use vsr_kv.Network.Server.{is_connected, send, send_to_peer, excluded, broadcast_to_peers}
use vsr_kv.Common.Map.Ascending.{Ascends}

-- The write to one peer: none if it is excluded or not connected.
abbrev pub write_to : List ℕ → Option ℕ → ℕ × Peer → List Pending
write_to bytes exclude_id entry = elim ((entry.1).connection) [
  | none ↦ []
  | some connection ↦
      if is_connected (entry.1).state && not (excluded exclude_id entry.0)
      then Pending.write_task connection bytes ∷ []
      else []
]

abbrev pub writes : List ℕ → Option ℕ → Map ℕ Peer → List Pending
writes bytes exclude_id [] = []
writes bytes exclude_id (entry ∷ peers) =
    write_to bytes exclude_id entry ++ writes bytes exclude_id peers

abbrev Found : Map ℕ Peer → ℕ × Peer → Type 0
Found m entry = find entry.0 m ≡ some (entry.1)

abbrev FoundAbove : ℕ → Map ℕ Peer → ℕ × Peer → Type 0
FoundAbove b m entry = (b ≤ entry.0) × Found m entry

above :
    (b k : ℕ) (v : Peer) (m : Map ℕ Peer) (xs : Map ℕ Peer)
    → b ≤ k
    → All (FoundAbove (suc k) m) xs
    → All (FoundAbove b ((k, v) ∷ m)) xs
unfolding find
above b k v m [] h a = tt
above b k v m ((j, w) ∷ xs) h a =
    ((omega (arith, (a.0).0), ground (arith, (a.0).0, (a.0).1)), above b k v m xs h a.1)

found_above : (b : ℕ) (m : Map ℕ Peer) → Ascends b m → All (FoundAbove b m) m
unfolding find
found_above b [] a = tt
found_above b ((k, v) ∷ m) a =
    ((a.0, ground arith), above b k v m m (a.0) (found_above (suc k) m a.1))

sends_nothing : (s : Server) → s ≡ record s { pending = s.pending ++ [] }
sends_nothing s = ap (λ p. record s { pending = p }) (sym (append-nil s.pending))

one_send :
    (bytes : List ℕ) (s : Server) (exclude up : Bool) (connection : Option ℕ)
    → (if exclude
        then s
        else elim connection [ none ↦ s | some c ↦ if up then send c bytes s else s ])
      ≡ record s {
        pending = s.pending ++ elim connection [
          | none ↦ []
          | some c ↦ if up && not exclude then Pending.write_task c bytes ∷ [] else []
        ];
      }
unfolding send
one_send bytes s true up none = sends_nothing s
one_send bytes s true true (some c) = sends_nothing s
one_send bytes s true false (some c) = sends_nothing s
one_send bytes s false up none = sends_nothing s
one_send bytes s false true (some c) = refl
one_send bytes s false false (some c) = sends_nothing s

one_write :
    (bytes : List ℕ) (exclude_id : Option ℕ) (entry : ℕ × Peer) (s : Server)
    → Found s.peers_by_id entry
    → (if excluded exclude_id entry.0 then s else send_to_peer entry.0 bytes s)
      ≡ record s { pending = s.pending ++ write_to bytes exclude_id entry }
unfolding send_to_peer
one_write bytes exclude_id (id, peer) s f =
    rw (send_to_peer, f)
      (one_send bytes s (excluded exclude_id id) (is_connected peer.state) peer.connection)

loop :
    (bytes : List ℕ) (exclude_id : Option ℕ) (peers : Map ℕ Peer) (b : ℕ) (s : Server)
    → All (FoundAbove b s.peers_by_id) peers
    → foldl
        (λ t entry. if excluded exclude_id entry.0 then t else send_to_peer entry.0 bytes t)
        s
        peers
      ≡ record s { pending = s.pending ++ writes bytes exclude_id peers }
loop bytes exclude_id [] b s a = ap (λ p. record s { pending = p }) (sym (append-nil s.pending))
loop bytes exclude_id (entry ∷ peers) b s a =
    rw (one_write bytes exclude_id entry s (a.0).1) (
      loop bytes exclude_id peers b
        (record s { pending = s.pending ++ write_to bytes exclude_id entry }) a.1)
    ∙ ap (λ p. record s { pending = p })
        (append_assoc s.pending (write_to bytes exclude_id entry) (writes bytes exclude_id peers))

-- A broadcast posts one write for each peer that is connected and not excluded, in the order of
-- the ids, and changes nothing else. The map of the peers is in the order of its keys.
pub broadcast_to_peers-writes :
    (bytes : List ℕ) (exclude_id : Option ℕ) (s : Server)
    → Ascends 0 s.peers_by_id
    → broadcast_to_peers bytes exclude_id s
      ≡ record s { pending = s.pending ++ writes bytes exclude_id s.peers_by_id }
unfolding broadcast_to_peers
broadcast_to_peers-writes bytes exclude_id s a =
    loop bytes exclude_id s.peers_by_id 0 s (found_above 0 s.peers_by_id a)
