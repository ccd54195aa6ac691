-- ===== src/Cluster/Agreement.antt =====
-- The logs of the replicas agree.
use vsr_kv.Common.{ℕ, ◌≤◌, ◌<◌, ◌≡◌, sym, ap, ◌∙◌, inl, inr, some, List, arith, dec_lt}
use vsr_kv.Common.Map.{find, nat_key}
use vsr_kv.Message.Checksum.{Blake3}
use vsr_kv.Serialization.{LogEntry}
use vsr_kv.ReplicaState.{PeerConfig}
use vsr_kv.Cluster.{Cluster, Reach}
use vsr_kv.Cluster.History.{Core, bare, History, Follows}
use vsr_kv.Cluster.Members.{hist}
use vsr_kv.Cluster.Invariant.{Reach-Inv}

-- An entry that a follower has is the one of the history.
pub held_entry :
    (h : History) (i k : ℕ) (c : Core) (e : LogEntry)
    → Follows h i c
    → find k c.log ≡ some e
    → (0 < k) × (k ≤ c.op) × (bare (some e) ≡ bare (find k h.primary.log))
held_entry h i k c e f x = elim (dec_lt 0 k) [
  | no z ↦ absurd (cc (f.outside k (inl (omega (arith, z))), x))
  | yes z ↦ elim (dec_lt c.op k) [
    | yes y ↦ absurd (cc (f.outside k (inr y), x))
    | no y ↦
        let below : k ≤ c.op = omega (arith, y) in (z, below, ap bare (sym x) ∙ f.within k z below)
  ]
]

-- In a cluster of at most 256 replicas that stay in view 0 without recovering, whatever is lost,
-- repeated or reordered, and whatever the clients send: where two replicas both have an entry under an operation number, it
-- is the same entry apart from the acknowledgements.
pub logs_agree :
    (blake3 : Blake3) (n : ℕ) (config : List PeerConfig) (c : Cluster) (i j k : ℕ) (d e : LogEntry)
    → 0 < n
    → n ≤ 256
    → Reach blake3 n config c
    → i < n
    → j < n
    → find k (c i).state.log ≡ some d
    → find k (c j).state.log ≡ some e
    → bare (some d) ≡ bare (some e)
logs_agree blake3 n config c i j k d e p b r a l x y =
    let v = Reach-Inv blake3 n p b r in
    (held_entry (hist c) i k _ d (v.members i a).follows x).2
    ∙ sym (held_entry (hist c) j k _ e (v.members j l).follows y).2
