-- ===== src/Cluster.antt =====
-- The replicas of a cluster together: server/replica.cpp on every machine, and the messages
-- between them, in a view that no timeout ends.
pub mod History
pub mod Primary
pub mod Backup
pub mod Replay
pub mod Executed
pub mod Executing
pub mod Runs
pub mod Kept
pub mod Leader
pub mod Follower
pub mod Task
pub mod Members
pub mod Started
pub mod Invariant
pub mod Agreement
pub mod Durability
pub mod Refinement
use vsr_kv.Common.{
  ℕ, zero, suc, ◌+◌, ◌-◌, ◌*◌, ◌/◌, ◌%◌, ◌^◌, ◌≤◌, ◌<◌, max, ◌≡◌, refl, sym, ap, subst, ◌∙◌, ◌≢◌,
  ◌↔◌, ◌⊎◌, inl, inr, Bool, true, false, not, ◌&&◌, ◌||◌, Option, none, some, List, [], ◌∷◌, ◌++◌,
  map, foldl, append-nil, append_assoc, arith, ℕ_discrete, dec_lt, ltb, leb, ◌==◌, if◌then◌else◌,
  ltb→lt, lt→ltb, le→ltb, ==_iff, ==_refl, Bool-cases, Option-cases, length, take, drop, replicate,
  All, length-append, length-drop, length-take_of_le, take-append, drop-append, take-append-drop,
  All-append, All-take, All-drop, ltb_false→le, take-append_of_le, drop-append_of_le,
}
use vsr_kv.Message.{VsrMessage, Command}
use vsr_kv.Message.Checksum.{Blake3}
use vsr_kv.Message.Codec.{sealed}
use vsr_kv.ReplicaState.{PeerConfig, is_normal}
use vsr_kv.Replica.{Replica, InboundMessage, Connection, Output, Env}
use vsr_kv.Replica.Normal.{send_commit_message_if_needed}
use vsr_kv.Replica.Queue.{process_message_queue}
use vsr_kv.Replica.Events.{construct, run, push_message}

-- The replicas by their ids.
abbrev pub Cluster : Type 0
Cluster = ℕ → Replica

abbrev pub update : Cluster → ℕ → Replica → Cluster
update c i r j = if j == i then r else c j

abbrev pub message_of : Output → VsrMessage
message_of (Output.send_message connection msg) = msg
message_of (Output.send_to_peer id msg) = msg
message_of (Output.broadcast_to_peers msg) = msg

-- What a client sends: the replicas take the view of the header as 0.
abbrev is_client_command : Command → Bool
is_client_command Command.request = true
is_client_command Command.ping = true
is_client_command _ = false

abbrev pub FromClient : VsrMessage → Type 0
FromClient msg = (is_client_command msg.header.command ≡ true) × (msg.header.view ≡ 0)

-- The last value of a `uint64_t`.
abbrev pub last_u64 : ℕ
last_u64 = 2 ^ 64 - 1

-- The events of `n` replicas while all of them are in normal operation: no liveness check finds
-- the primary silent, and no replica falls out of step so far that it recovers. A message that
-- has been sent arrives at any time, at any replica, any number of times or never. A backup that
-- takes a prepare behind a gap starts to recover, so such a task is no step here.
-- The operation numbers stay below the last value of their type.
module _ (blake3 : Blake3) (n : ℕ) where
  pub data Step : Cluster → Cluster → Type 0 where
    delivered :
        (c : Cluster) (i j : ℕ) (before : List Output) (o : Output) (after : List Output)
        (connection : Connection)
        → i < n
        → j < n
        → (c j).sent ≡ before ++ (o ∷ after)
        → Step c (
            update c i (
              push_message
                (record { connection = connection; message = sealed blake3 (message_of o) })
                (c i)))
    client_sends :
        (c : Cluster) (i : ℕ) (connection : Connection) (msg : VsrMessage)
        → i < n
        → FromClient msg
        → Step c
            (update c i (push_message (record { connection = connection; message = msg }) (c i)))
    queue_task :
        (c : Cluster) (i : ℕ) (env : Env)
        → i < n
        → (c i).state.op + length (c i).message_queue < last_u64
        → is_normal (process_message_queue env (c i)).state.status ≡ true
        → Step c (update c i (process_message_queue env (c i)))
    heartbeat :
        (c : Cluster) (i : ℕ) → i < n → Step c (update c i (send_commit_message_if_needed (c i)))

  pub data Reach (config : List PeerConfig) : Cluster → Type 0 where
    started :
        (c : Cluster) (env : ℕ → Env)
        → ((i : ℕ) → i < n → (r : Replica) × (construct i config ≡ some r) × (c i ≡ run (env i) r))
        → Reach config c
    next : {c d : Cluster} → Reach config c → Step c d → Reach config d
