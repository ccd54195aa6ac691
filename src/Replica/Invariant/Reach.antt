-- ===== src/Replica/Invariant/Reach.antt =====
-- The invariant holds of every replica that the events lead to.
use vsr_kv.Common.{ℕ, ◌≡◌, some, List, [], ◌∷◌, arith, All-append}
use vsr_kv.Common.Map.{nat_key}
use vsr_kv.Message.Checksum.{Blake3}
use vsr_kv.Message.Ranges.{deserialize-InRange}
use vsr_kv.Serialization.Ranges.{LogInRange-nil}
use vsr_kv.ReplicaState.{PeerConfig, new_state}
use vsr_kv.Replica.{Replica, InboundMessage}
use vsr_kv.Replica.Events.{construct, run, push_message, Step, Reach}
use vsr_kv.Replica.Invariant.{InboundInRange, StateInv, Inv}
use vsr_kv.Replica.Invariant.Normal.{send_commit_message-Inv}
use vsr_kv.Replica.Invariant.ViewChange.{check_primary_liveness-Inv}
use vsr_kv.Replica.Invariant.Queue.{process_message_queue-Inv}

new_state-Inv : (id : ℕ) (config : List PeerConfig) → StateInv (new_state id config)
unfolding new_state
new_state-Inv id config = ground (arith, LogInRange-nil)

construct-Inv :
    (id : ℕ) (config : List PeerConfig) (r : Replica) → construct id config ≡ some r → Inv r
unfolding construct
construct-Inv id config r e = let v = new_state-Inv id config in ground (arith, v)

push_message-Inv :
    (inbound : InboundMessage) (r : Replica)
    → InboundInRange inbound
    → Inv r
    → Inv (push_message inbound r)
unfolding push_message
push_message-Inv inbound r f v =
    let queue = All-append InboundInRange r.message_queue (inbound ∷ []) v.message_queue (f, tt) in
    ground (arith, queue)

module _ (blake3 : Blake3) where
  Step-Inv : {r s : Replica} → Step blake3 r s → Inv r → Inv s
  Step-Inv (Step.message_received r connection bytes msg b n e) v =
      let f = deserialize-InRange blake3 bytes msg b e in
      push_message-Inv _ r (f.0, omega (arith, f.1)) v
  Step-Inv (Step.queue_task r env e) v = process_message_queue-Inv env e r v
  Step-Inv (Step.heartbeat r) v = send_commit_message-Inv r v
  Step-Inv (Step.liveness_check r env) v = check_primary_liveness-Inv env r v

  -- Whatever a replica receives, and in whatever order its events come: its view and its
  -- operation and commit numbers lie in the range of their types, its log is in ascending order
  -- with every entry in range, and every message in its queue or sent by it has a header in
  -- range and a payload of bytes.
  Reach-Inv : {id : ℕ} {config : List PeerConfig} {r : Replica} → Reach blake3 id config r → Inv r
  Reach-Inv {id} {config} (Reach.started r env e) =
      let v = construct-Inv id config r e in unfold run in ground (arith, v)
  Reach-Inv (Reach.next p st) = Step-Inv st (Reach-Inv p)
