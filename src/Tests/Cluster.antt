-- ===== src/Tests/Cluster.antt =====
-- A request that a cluster of three logs, acknowledges and executes.
use vsr_kv.Common.{List, ◌*◌, ℕ, zero, suc, ◌≤◌, ◌<◌, ◌≡◌, refl, some, [], ◌∷◌, arith, length}
use vsr_kv.Tests.Data.{set_entry, peers, new_replica, noon, set_request, toy_blake3}
use vsr_kv.Common.Map.{find, insert, nat_key}
use vsr_kv.Common.IntSet
use vsr_kv.Utilities.{u128_key, u128_lt}
use vsr_kv.Serialization.{LogEntry}
use vsr_kv.Message.Codec.{sealed}
use vsr_kv.ReplicaState.{new_state, configure, is_primary, get_primary_id}
use vsr_kv.Replica.{Replica, InboundMessage, Output, client_entry, touch_entry}
use vsr_kv.Replica.Execute.{
  extract, run_operation, reply_to_client, apply_entry, already_executed, execute_op, execute_loop,
  execute_commited_ops,
}
use vsr_kv.Replica.Commit.{
  has_quorum, advance_loop, advance_primary_commit_number, check_can_process_prepare_ok,
  handle_prepare_ok,
}
use vsr_kv.Replica.Normal.{
  check_can_process_request, request_entry, prepare_message, log_request, handle_new_request,
  handle_request, check_can_process_prepare, adopt_commit, log_prepare, prepare_ok_message,
  handle_prepare,
}
use vsr_kv.Replica.Queue.{
  can_process_command, can_process, dispatch_command, dispatch, is_stale, verdict, drain, act,
  passes, process_message_queue,
}
use vsr_kv.Replica.Events.{construct, run, push_message}
use vsr_kv.Cluster.{Cluster, update, message_of, Step, Reach}
use vsr_kv.Cluster.History.{bare}
use vsr_kv.Cluster.Replay.{replay}
use vsr_kv.Cluster.Agreement.{logs_agree}
use vsr_kv.Cluster.Durability.{KeptBy, committed_kept}
use vsr_kv.Cluster.Refinement.{replica_replays}

abbrev begun : Cluster
begun i = run noon (new_replica i)

begun_constructed :
    (i : ℕ) → i < 3 → (r : Replica) × (construct i (peers 3 0) ≡ some r) × (begun i ≡ run noon r)
unfolding construct new_state configure find insert
begun_constructed zero l = (new_replica 0, refl, refl)
begun_constructed (suc zero) l = (new_replica 1, refl, refl)
begun_constructed (suc (suc zero)) l = (new_replica 2, refl, refl)
begun_constructed (suc (suc (suc i))) l = absurd (omega (arith, l))

abbrev from : Output → InboundMessage
from o = record { connection = some 7; message = sealed toy_blake3 (message_of o) }

abbrev asked : Cluster
asked =
    update begun 0 (push_message (record { connection = some 7; message = set_request }) (begun 0))

abbrev logged : Cluster
logged = update asked 0 (process_message_queue noon (asked 0))

abbrev prepare : Output
prepare = Output.broadcast_to_peers (prepare_message set_request (logged 0).state)

abbrev prepared : Cluster
prepared = update logged 1 (push_message (from prepare) (logged 1))

abbrev backed : Cluster
backed = update prepared 1 (process_message_queue noon (prepared 1))

abbrev acknowledgement : Output
acknowledgement = Output.send_message (some 7) (prepare_ok_message 1 (backed 1).state)

abbrev acknowledged : Cluster
acknowledged = update backed 0 (push_message (from acknowledgement) (backed 0))

abbrev committed : Cluster
committed = update acknowledged 0 (process_message_queue noon (acknowledged 0))

reached_logged : Reach toy_blake3 3 (peers 3 0) logged
unfolding process_message_queue passes drain act verdict is_stale can_process can_process_command
    check_can_process_request dispatch dispatch_command handle_request handle_new_request
    log_request request_entry prepare_message client_entry touch_entry find insert is_primary
    get_primary_id new_state run push_message
reached_logged =
    Reach.next
      (Reach.next (Reach.started begun (λ i. noon) begun_constructed)
        (Step.client_sends begun 0 (some 7) set_request (omega arith) (refl, refl)))
      (Step.queue_task asked 0 noon (omega arith) (omega arith) refl)

logged_sent : (logged 0).sent ≡ prepare ∷ []
unfolding process_message_queue passes drain act verdict is_stale can_process can_process_command
    check_can_process_request dispatch dispatch_command handle_request handle_new_request
    log_request request_entry prepare_message client_entry touch_entry find insert is_primary
    get_primary_id new_state run push_message
logged_sent = refl

reached_backed : Reach toy_blake3 3 (peers 3 0) backed
unfolding process_message_queue passes drain act verdict is_stale can_process can_process_command
    check_can_process_request dispatch dispatch_command handle_request handle_new_request
    log_request request_entry prepare_message client_entry touch_entry find insert is_primary
    get_primary_id new_state run push_message sealed check_can_process_prepare handle_prepare
    log_prepare adopt_commit
reached_backed =
    Reach.next
      (Reach.next reached_logged
        (Step.delivered logged 1 0 [] prepare [] (some 7) (omega arith) (omega arith) logged_sent))
      (Step.queue_task prepared 1 noon (omega arith) (omega arith) refl)

backed_sent : (backed 1).sent ≡ acknowledgement ∷ []
unfolding process_message_queue passes drain act verdict is_stale can_process can_process_command
    check_can_process_request dispatch dispatch_command handle_request handle_new_request
    log_request request_entry prepare_message client_entry touch_entry find insert is_primary
    get_primary_id new_state run push_message sealed check_can_process_prepare handle_prepare
    log_prepare adopt_commit
backed_sent = refl

reached_committed : Reach toy_blake3 3 (peers 3 0) committed
unfolding process_message_queue passes drain act verdict is_stale can_process can_process_command
    check_can_process_request dispatch dispatch_command handle_request handle_new_request
    log_request request_entry prepare_message client_entry touch_entry find insert is_primary
    get_primary_id new_state run push_message sealed check_can_process_prepare handle_prepare
    log_prepare adopt_commit check_can_process_prepare_ok handle_prepare_ok
    advance_primary_commit_number advance_loop has_quorum execute_commited_ops execute_loop
    execute_op already_executed apply_entry run_operation extract reply_to_client IntSet.add u128_lt
reached_committed =
    Reach.next
      (Reach.next reached_backed (
        Step.delivered backed 0 1 [] acknowledgement [] (some 7) (omega arith) (omega arith)
          backed_sent))
      (Step.queue_task acknowledged 0 noon (omega arith) (omega arith) refl)

-- The primary has the acknowledgements of both.
abbrev primary_entry : LogEntry
primary_entry = set_entry 1 (0 ∷ 1 ∷ [])

abbrev backup_entry : LogEntry
backup_entry = set_entry 1 []

outcome :
    (find 1 (committed 0).state.log ≡ some primary_entry)
    × (find 1 (committed 1).state.log ≡ some backup_entry)
    × ((committed 0).state.commit ≡ 1)
    × ((committed 0).state.last_executed_op ≡ 1)
unfolding process_message_queue passes drain act verdict is_stale can_process can_process_command
    check_can_process_request dispatch dispatch_command handle_request handle_new_request
    log_request request_entry prepare_message client_entry touch_entry find insert is_primary
    get_primary_id new_state run push_message sealed check_can_process_prepare handle_prepare
    log_prepare adopt_commit check_can_process_prepare_ok handle_prepare_ok
    advance_primary_commit_number advance_loop has_quorum execute_commited_ops execute_loop
    execute_op already_executed apply_entry run_operation extract reply_to_client IntSet.add u128_lt
outcome = (refl, refl, refl, refl)

primary_has : find 1 (committed 0).state.log ≡ some primary_entry
primary_has = let (a, b, c, d) = outcome in a

backup_has : find 1 (committed 1).state.log ≡ some backup_entry
backup_has = let (a, b, c, d) = outcome in b

has_committed : (committed 0).state.commit ≡ 1
has_committed = let (a, b, c, d) = outcome in c

has_executed : (committed 0).state.last_executed_op ≡ 1
has_executed = let (a, b, c, d) = outcome in d

logs_agree_example : bare (some primary_entry) ≡ bare (some backup_entry)
logs_agree_example =
    logs_agree toy_blake3 3 (peers 3 0) committed 0 1 1 primary_entry backup_entry (omega arith)
      (omega arith) reached_committed (omega arith) (omega arith) primary_has backup_has

committed_kept_example :
    (e : LogEntry) × (ids : List ℕ) × (find 1 (committed 0).state.log ≡ some e)
    × (3 < 2 * length ids)
    × KeptBy 3 committed 1 e ids
committed_kept_example =
    committed_kept toy_blake3 3 (peers 3 0) committed 0 1 refl (omega arith) (omega arith) refl
      reached_committed (omega arith) (omega arith) (omega (arith, has_committed))

replica_replays_example :
    ((committed 0).state.last_executed_op ≤ (committed 0).state.commit)
    × ((committed 0).state.state_machine
        ≡ replay (committed 0).state.last_executed_op (committed 0).state.log)
replica_replays_example =
    replica_replays toy_blake3 3 (peers 3 0) committed 0 (omega arith) (omega arith)
      reached_committed (omega arith)
      (λ j k d e p l b x y c. absurd (omega (arith, has_executed, p, l, b)))
