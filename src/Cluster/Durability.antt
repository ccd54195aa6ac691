-- ===== src/Cluster/Durability.antt =====
-- What is committed is in the logs of a quorum.
use vsr_kv.Common.{
  ◌%◌, ◌*◌, ℕ, ◌+◌, ◌≤◌, ◌<◌, ◌≡◌, ap, ◌∙◌, true, some, List, [], ◌∷◌, arith, length, All,
}
use vsr_kv.Common.Map.{find, nat_key}
use vsr_kv.Common.IntSet.{IsAscending}
use vsr_kv.Message.Checksum.{Blake3}
use vsr_kv.Serialization.{LogEntry, Log}
use vsr_kv.ReplicaState.{PeerConfig, new_state}
use vsr_kv.Replica.Commit.{has_quorum}
use vsr_kv.Cluster.{sym, Cluster, Reach}
use vsr_kv.Cluster.History.{Core, bare, History, Follows}
use vsr_kv.Cluster.Replay.{bare_find}
use vsr_kv.Cluster.Started.{fault_of}
use vsr_kv.Cluster.Members.{hist, Inv}
use vsr_kv.Cluster.Invariant.{Reach-Inv}

-- The log has this entry under the number, apart from the acknowledgements.
abbrev pub Logs : ℕ → LogEntry → Log → Type 0
Logs k e log = (d : LogEntry) × (find k log ≡ some d) × (bare (some d) ≡ bare (some e))

-- Replicas of the cluster, no two of them the same, that have the entry in their logs.
abbrev pub KeptBy : ℕ → Cluster → ℕ → LogEntry → List ℕ → Type 0
KeptBy n c k e ids = IsAscending ids × All (λ j. (j < n) × Logs k e (c j).state.log) ids

Logs-follower :
    (h : History) (j k : ℕ) (c : Core) (e : LogEntry)
    → Follows h j c
    → 0 < k
    → k ≤ h.held j
    → find k h.primary.log ≡ some e
    → Logs k e c.log
Logs-follower h j k c e f p l x =
    bare_find (find k c.log) e (f.within k p (omega (arith, l, f.held)) ∙ ap bare x)

keepers :
    (n f k : ℕ) (c : Cluster) (e : LogEntry) (ids : List ℕ)
    → Inv n f c
    → 0 < k
    → find k (c 0).state.log ≡ some e
    → All (λ j. (j < n) × (k ≤ (hist c).held j)) ids
    → All (λ j. (j < n) × Logs k e (c j).state.log) ids
keepers n f k c e [] v p x a = tt
keepers n f k c e (j ∷ ids) v p x a = (
  ((a.0).0, Logs-follower (hist c) j k _ e (v.members j (a.0).0).follows p (a.0).1 x),
  keepers n f k c e ids v p x a.1,
)

quorum_size : (f : ℕ) (e : LogEntry) → has_quorum f e ≡ true → f + 1 ≤ length e.prepare_ok_acks
unfolding has_quorum
quorum_size f e q = ground arith

fault_half :
    (config : List PeerConfig) (n : ℕ)
    → length config ≡ n
    → 0 < n
    → n ≤ 256
    → n % 2 ≡ 1
    → n ≡ 2 * fault_of config + 1
unfolding new_state
fault_half config n h p b o = rw h (omega (arith, p, b, o))

-- The quorum of a configuration of n replicas.
majority :
    (config : List PeerConfig) (n : ℕ) (e : LogEntry)
    → length config ≡ n
    → 0 < n
    → n ≤ 256
    → n % 2 ≡ 1
    → has_quorum (fault_of config) e ≡ true
    → n < 2 * length e.prepare_ok_acks
majority config n e h p b o q =
    omega (arith, fault_half config n h p b o, quorum_size (fault_of config) e q)

-- In an odd cluster of at most 256 replicas, those of its configuration, that stay in view 0 without
-- recovering, whatever is lost, repeated or reordered, and whatever the clients send: an
-- operation that any replica takes for committed is in the log of the primary, and a majority of
-- different replicas have the same entry in their logs, apart from the acknowledgements.
pub committed_kept :
    (blake3 : Blake3) (n : ℕ) (config : List PeerConfig) (c : Cluster) (i k : ℕ)
    → length config ≡ n
    → 0 < n
    → n ≤ 256
    → n % 2 ≡ 1
    → Reach blake3 n config c
    → i < n
    → 0 < k
    → k ≤ (c i).state.commit
    → (e : LogEntry) × (ids : List ℕ) × (find k (c 0).state.log ≡ some e)
      × (n < 2 * length ids)
      × KeptBy n c k e ids
committed_kept blake3 n config c i k h p b o r l z y =
    let v = Reach-Inv blake3 n p b r in
    let f = (v.members i l).follows in
    let (e, x, q) = v.sound.quorum k z (omega (arith, y, f.commit)) in
    let (s, a) = v.sound.acks k e x in
    (
      e,
      e.prepare_ok_acks,
      x,
      majority config n e h p b o (ap (λ f. has_quorum f e) (sym v.fault) ∙ q),
      (s, keepers n (fault_of config) k c e _ v z x a),
    )
