-- ===== src/Replica/Events.antt =====
-- The events of a replica in server/replica.cpp: its start, the arrival of a message, the task
-- that works on the queue, and the two timers, which are armed again whenever they fire.
use vsr_kv.Common.{ℕ, ◌^◌, ◌≤◌, ◌<◌, ◌≡◌, Option, none, some, List, [], ◌∷◌, ◌++◌, length}
use vsr_kv.Common.Map.{find, nat_key}
use vsr_kv.Message.{VsrMessage, empty_message}
use vsr_kv.Message.Checksum.{Blake3}
use vsr_kv.Message.Codec.{deserialize}
use vsr_kv.Message.Ranges.{Bytes}
use vsr_kv.ReplicaState.{PeerConfig, new_state}
use vsr_kv.Replica.{Replica, InboundMessage, Connection, Env}
use vsr_kv.Replica.Normal.{send_commit_message_if_needed}
use vsr_kv.Replica.ViewChange.{check_primary_liveness}
use vsr_kv.Replica.Queue.{process_message_queue}
use vsr_kv.Protocol.{max_message_size}

-- `cluster_config_.at(id)` throws for an id that the cluster does not have.
unfoldable pub construct : ℕ → List PeerConfig → Option Replica
construct id config =
    let s = new_state id config in
    elim (find id s.cluster_config) [
      | none ↦ none
      | some self_config ↦ some (record {
        state = s;
        client_connections = [];
        message_queue = [];
        last_primary_contact = 0;
        nonce_counter = 0;
        sent = [];
      })
    ]

-- Starts the clock of the liveness check.
unfoldable pub run : Env → Replica → Replica
run env r = record r { last_primary_contact = env.now }

-- The message joins the queue; the task that is posted is an event of its own.
unfoldable pub push_message : InboundMessage → Replica → Replica
push_message inbound r = record r { message_queue = r.message_queue ++ (inbound ∷ []) }

-- A replica of a cluster from its start on. A message is one that `deserialize` accepted from
-- the bytes of a frame.
module _ (blake3 : Blake3) where
  pub data Step : Replica → Replica → Type 0 where
    message_received :
        (r : Replica) (connection : Connection) (bytes : List ℕ) (msg : VsrMessage)
        → Bytes bytes
        → length bytes ≤ max_message_size
        → deserialize blake3 bytes empty_message ≡ some msg
        → Step r (push_message (record { connection = connection; message = msg }) r)
    queue_task :
        (r : Replica) (env : Env)
        → env.uninitialised < 2 ^ 32
        → Step r (process_message_queue env r)
    heartbeat : (r : Replica) → Step r (send_commit_message_if_needed r)
    liveness_check : (r : Replica) (env : Env) → Step r (check_primary_liveness env r)

  pub data Reach (id : ℕ) (config : List PeerConfig) : Replica → Type 0 where
    started : (r : Replica) (env : Env) → construct id config ≡ some r → Reach id config (run env r)
    next : {r s : Replica} → Reach id config r → Step r s → Reach id config s
