-- ===== src/ReplicaState/Primary.antt =====
-- The two ways in which a replica computes the primary of a view.
use vsr_kv.Common.{
  ℕ, suc, ◌+◌, ◌*◌, ◌%◌, ◌^◌, ◌≤◌, ◌<◌, ◌≡◌, refl, sym, ap, ◌∙◌, ◌⊎◌, inl, inr, false, some, List,
  [], ◌∷◌, ◌++◌, map, append-nil, append_assoc, arith, ◌==◌, length,
}
use native.Mathlib.Nat.{mod-eq_of_lt, mod_self}
use vsr_kv.Common.Map.{Map, nat_key}
use vsr_kv.Common.Map.Ascending.{Ascends, KeysBelow, KeysBelow-mono, insert_last}
use vsr_kv.ReplicaState.{
  PeerConfig, ReplicaState, configure, new_state, get_primary_id, get_primary_id_for_view,
}

abbrev keyed : PeerConfig → ℕ × PeerConfig
keyed peer = (peer.id, peer)

-- The ids of the configuration ascend, as in `server_main`.
abbrev pub IsOrdered : List PeerConfig → Type 0
IsOrdered config = Ascends 0 (map keyed config)

length-keyed : (config : List PeerConfig) → length (map keyed config) ≡ length config
length-keyed [] = refl
length-keyed (p ∷ config) = ap suc (length-keyed config)

KeysBelow-snoc :
    (b k : ℕ) (p : PeerConfig) (m : Map ℕ PeerConfig)
    → KeysBelow b m
    → b ≤ k
    → KeysBelow (suc k) (m ++ (k, p) ∷ [])
KeysBelow-snoc b k p [] h le = (omega arith, tt)
KeysBelow-snoc b k p (x ∷ m) h le = (omega arith, KeysBelow-snoc b k p m h.1 le)

configure_lem :
    (b : ℕ) (m : Map ℕ PeerConfig) (config : List PeerConfig)
    → KeysBelow b m
    → Ascends b (map keyed config)
    → configure m config ≡ m ++ map keyed config
unfolding configure
configure_lem b m [] k a = sym (append-nil m)
configure_lem b m (p ∷ config) k a =
    ap (λ x. configure x config) (insert_last p.id p m (KeysBelow-mono m a.0 k))
    ∙ configure_lem (suc p.id) (m ++ (p.id, p) ∷ []) config (KeysBelow-snoc b p.id p m k a.0) a.1
    ∙ append_assoc m ((p.id, p) ∷ []) (map keyed config)

cluster_size :
    (id : ℕ) (config : List PeerConfig)
    → IsOrdered config
    → length (new_state id config).cluster_config ≡ length config
unfolding new_state
cluster_size id config o = ap length (configure_lem 0 [] config tt o) ∙ length-keyed config

abbrev pub in_view : ℕ → ℕ → List PeerConfig → ReplicaState
in_view v id config = record (new_state id config) { view = v }

by_cluster_size :
    (v id : ℕ) (config : List PeerConfig)
    → IsOrdered config
    → 0 < length config
    → get_primary_id_for_view (in_view v id config) v ≡ some (v % length config)
unfolding get_primary_id_for_view
by_cluster_size v id config o pos =
    rw (cluster_size id config o, not_empty, get_primary_id_for_view)
  where
    not_empty : (length config == 0) ≡ false
    not_empty = ground arith

by_fault_tolerance :
    (v id f : ℕ) (config : List PeerConfig)
    → f < 2 ^ 32
    → (length config ≡ 2 * f + 1) ⊎ (length config ≡ 2 * f + 2)
    → get_primary_id (in_view v id config) ≡ v % (2 * f + 1)
unfolding get_primary_id new_state
by_fault_tolerance v id f config fits n = ap (λ (k : ℕ). v % (2 * k + 1)) (omega arith)

-- For a cluster of odd size `is_primary` and the view change mean the same primary in every view.
pub primary_of_odd_cluster :
    (v id f : ℕ) (config : List PeerConfig)
    → f < 2 ^ 32
    → IsOrdered config
    → length config ≡ 2 * f + 1
    → get_primary_id_for_view (in_view v id config) v ≡ some (get_primary_id (in_view v id config))
primary_of_odd_cluster v id f config fits o n =
    by_cluster_size v id config o (omega arith)
    ∙ ap some (ap (λ (k : ℕ). v % k) n ∙ sym (by_fault_tolerance v id f config fits (inl n)))

-- For a cluster of even size 2 * f + 2 they differ in view 2 * f + 1: the view change elects the
-- last replica, and `is_primary` holds of replica 0.
primary_of_even_cluster :
    (id f : ℕ) (config : List PeerConfig)
    → f < 2 ^ 32
    → IsOrdered config
    → length config ≡ 2 * f + 2
    → let s = in_view (2 * f + 1) id config in
      (get_primary_id_for_view s s.view ≡ some (2 * f + 1)) × (get_primary_id s ≡ 0)
primary_of_even_cluster id f config fits o n = (
  by_cluster_size (2 * f + 1) id config o (omega arith)
      ∙ ap some (ap (λ (k : ℕ). (2 * f + 1) % k) n ∙ mod-eq_of_lt (omega arith)),
  by_fault_tolerance (2 * f + 1) id f config fits (inr n) ∙ mod_self (2 * f + 1),
)
