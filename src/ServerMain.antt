-- ===== src/ServerMain.antt =====
-- server/server_main.cpp: the entry point of the server.
use vsr_kv.Common.{
  ℕ, ◌+◌, ◌≡◌, refl, sym, ◌≢◌, ◌⊎◌, inl, inr, Bool, true, false, ◌||◌, Option, none, some, List, [],
  ◌∷◌, ◌==◌, if◌then◌else◌, ==_iff, Bool-cases, Option-cases,
}
use vsr_kv.Common.Map.{Map, find, insert, find-insert, equiv, nat_key}
use vsr_kv.ReplicaState.{PeerConfig, new_state, configure}
use vsr_kv.Replica.{Replica, Env}
use vsr_kv.Replica.Events.{construct, run}
use vsr_kv.Network.Handshake.{ℤ, stoi}

-- How the program goes on: it ends with a message on the usage, on the id, or on an exception
-- that it catches; an exception that it does not catch ends it; or the replica runs.
pub data Exit : Type 0 where
  usage not_found critical_error uncaught : Exit
  runs : Replica → Exit

abbrev localhost : List ℕ
localhost = b'l' ∷ b'o' ∷ b'c' ∷ b'a' ∷ b'l' ∷ b'h' ∷ b'o' ∷ b's' ∷ b't' ∷ []

abbrev peer_config : ℕ → PeerConfig
peer_config id = record { id = id; host = localhost; port = 8080 + id }

unfoldable pub cluster_config : List PeerConfig
cluster_config = peer_config 0 ∷ peer_config 1 ∷ peer_config 2 ∷ []

unfoldable pub id_found : ℕ → List PeerConfig → Bool
id_found self_id [] = false
id_found self_id (peer ∷ config) = peer.id == self_id || id_found self_id config

abbrev pub started : Env → Option Replica → Exit
started env none = Exit.critical_error
started env (some replica) = Exit.runs (run env replica)

unfoldable pub start_replica : Env → ℕ → List PeerConfig → Exit
unfolding id_found
start_replica env self_id config =
    if id_found self_id config then started env (construct self_id config) else Exit.not_found

unfoldable pub with_id : Env → List PeerConfig → Option ℤ → Exit
unfolding start_replica
with_id env config none = Exit.uncaught
with_id env config (some (ℤ.negsuc n)) = Exit.not_found
with_id env config (some (ℤ.pos self_id)) = start_replica env self_id config

-- The arguments are the ones behind the program's name.
unfoldable pub main : Env → List (List ℕ) → Exit
unfolding cluster_config with_id
main env [] = Exit.usage
main env (argument ∷ more) = with_id env cluster_config (stoi argument)

some-IsSome : {A : Type 0} {a : A} → some a ≢ none
some-IsSome h = cc

same_equiv : (j id : ℕ) → (j == id) ≡ true → equiv id j ≡ true
same_equiv j id h = (nat_key.equiv_iff id j).1 (sym ((==_iff j id).0 h))

configured :
    (id : ℕ) (config : List PeerConfig) (m : Map ℕ PeerConfig)
    → (id_found id config ≡ true) ⊎ (find id m ≢ none)
    → find id (configure m config) ≢ none
unfolding configure id_found
configured id [] m (inl h) = absurd cc
configured id [] m (inr h) = h
configured id (peer ∷ config) m h = elim (Bool-cases (equiv id peer.id)) [
  | inl e ↦
      configured id config (insert peer.id peer m)
        (inr (rw (find-insert peer.id id peer m, e) some-IsSome))
  | inr e ↦ configured id config (insert peer.id peer m) (rest e h)
]
  where
    rest :
        equiv id peer.id ≡ false
        → ((peer.id == id || id_found id config) ≡ true) ⊎ (find id m ≢ none)
        → (id_found id config ≡ true) ⊎ (find id (insert peer.id peer m) ≢ none)
    rest e (inl k) = elim (Bool-cases (peer.id == id)) [
      | inl l ↦ absurd (cc (e, same_equiv peer.id id l))
      | inr l ↦ inl (rw l at k)
    ]
    rest e (inr k) = inr (rw (find-insert peer.id id peer m, e) k)

constructed :
    (id : ℕ) (config : List PeerConfig) → id_found id config ≡ true → construct id config ≢ none
unfolding construct new_state
constructed id config h = elim (Option-cases (find id (configure [] config))) [
  | inl e ↦ absurd (configured id config [] (inl h) e)
  | inr (peer, e) ↦ rw (construct, e) some-IsSome
]

-- An id that the configuration has passes the check, and the replica is constructed and runs:
-- the lookup of its own entry in the constructor never throws.
start_replica_runs :
    (env : Env) (self_id : ℕ) (config : List PeerConfig)
    → id_found self_id config ≡ true
    → (r : Replica) × (construct self_id config ≡ some r)
      × (start_replica env self_id config ≡ Exit.runs (run env r))
unfolding start_replica
start_replica_runs env self_id config h = elim (Option-cases (construct self_id config)) [
  | inl e ↦ absurd (constructed self_id config h e)
  | inr (r, e) ↦ (r, e, rw (start_replica, h, e) refl)
]
