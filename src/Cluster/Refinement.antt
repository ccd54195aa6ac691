-- ===== src/Cluster/Refinement.antt =====
-- The state machine of a replica is that of a single server.
use vsr_kv.Common.{ℕ, ◌≤◌, ◌<◌, ◌≡◌, sym, List, arith}
use vsr_kv.Common.Map.{nat_key}
use vsr_kv.Message.Checksum.{Blake3}
use vsr_kv.ReplicaState.{PeerConfig}
use vsr_kv.Replica.Execute.Machine.{machine_of}
use vsr_kv.Cluster.{Cluster, Reach}
use vsr_kv.Cluster.Replay.{replay, NoRepeats}
use vsr_kv.Cluster.Executed.{Executed-Agree}
use vsr_kv.Cluster.Invariant.{Reach-Inv}

-- In a cluster of at most 256 replicas that stay in view 0 without recovering, whatever is lost,
-- repeated or reordered: a
-- replica has executed committed operations only, and where the log of the primary has no
-- request of a client twice under the numbers that the replica has executed, its state machine
-- is the one that runs each of these operations of the primary's log once, in their order.
pub replica_replays :
    (blake3 : Blake3) (n : ℕ) (config : List PeerConfig) (c : Cluster) (i : ℕ)
    → 0 < n
    → n ≤ 256
    → Reach blake3 n config c
    → i < n
    → NoRepeats (c i).state.last_executed_op (c 0).state.log
    → ((c i).state.last_executed_op ≤ (c i).state.commit)
      × ((c i).state.state_machine ≡ replay (c i).state.last_executed_op (c 0).state.log)
replica_replays blake3 n config c i p b r l u =
    let v = Reach-Inv blake3 n p b r in
    let m = v.members i l in
    let x =
      Executed-Agree (c i).state.log (c 0).state.log (machine_of (c i))
        (λ k z y. sym (m.follows.within k z (omega (arith, y, m.runs.within)))) m.runs.executed in
    (m.runs.committed, x.machine u)
