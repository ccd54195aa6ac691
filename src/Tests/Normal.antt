-- ===== src/Tests/Normal.antt =====
-- Normal operation: requests, prepares, commits and execution.
use vsr_kv.Common.{◌≡◌, refl, true, some, [], ◌∷◌, arith}
use vsr_kv.Common.Map.{find, nat_key}
use vsr_kv.Tests.Data.{set_request, two_entries, new_replica, noon, from_connection}
use vsr_kv.ReplicaState.{new_state, is_primary}
use vsr_kv.Replica.{Replica, Output, client_entry, with_state}
use vsr_kv.Replica.Execute.{execute_commited_ops}
use vsr_kv.Replica.Execute.Machine.{machine_of}
use vsr_kv.Replica.Execute.Batches.{
  CaughtUp, execute_commited_ops-CaughtUp, execute_in_batches, with_commit,
}
use vsr_kv.Replica.Commit.{advance_loop}
use vsr_kv.Replica.Commit.Quorum.{Reached, advance_loop-Reached}
use vsr_kv.Replica.Normal.{
  prepare_message, log_request, handle_new_request, handle_prepare, handle_request,
  check_can_process_prepare,
}
use vsr_kv.Replica.Normal.Replication.{InSync, handle_prepare-InSync}
use vsr_kv.Replica.Normal.Retry.{LoggedNext, handle_all, empty_replies, handle_request_repeated}
use vsr_kv.Utilities.{u128_key, u128_lt}
use vsr_kv.Common.Map.{insert}
use vsr_kv.Replica.Normal.{pending_entry, log_request, handle_new_request}
use vsr_kv.Replica.{InboundMessage, touch_entry}
use vsr_kv.Tests.Data.{client_id}
use vsr_kv.Common.{List, ◌++◌}

-- A backup with two logged operations.
abbrev backup : Replica
backup =
    let r = new_replica 1 in
    with_state (record (r.state) { op = 2; commit = 2; log = two_entries }) r

advance_loop-Reached_example : Reached 1 two_entries 0 (advance_loop 2 1 two_entries 0)
advance_loop-Reached_example = advance_loop-Reached 1 two_entries 0 (omega arith) (omega arith)

execute_commited_ops-CaughtUp_example :
    CaughtUp two_entries 2 (machine_of backup) (machine_of (execute_commited_ops backup))
execute_commited_ops-CaughtUp_example = execute_commited_ops-CaughtUp backup (omega arith)

execute_in_batches_example :
    machine_of (execute_commited_ops (with_commit 2 (execute_commited_ops (with_commit 1 backup))))
    ≡ machine_of (execute_commited_ops (with_commit 2 backup))
execute_in_batches_example = execute_in_batches backup 1 2 (omega arith) (omega arith)

handle_prepare-InSync_example :
    let msg = prepare_message set_request (log_request set_request (new_replica 0).state) in
    ((handle_new_request (from_connection 7 set_request) (new_replica 0)).sent
      ≡ Output.broadcast_to_peers msg ∷ [])
    × (check_can_process_prepare msg (new_replica 1).state ≡ true)
    × InSync
        (handle_new_request (from_connection 7 set_request) (new_replica 0)).state
        (handle_prepare noon (from_connection 8 msg) (new_replica 1)).state
unfolding is_primary new_state
handle_prepare-InSync_example =
    handle_prepare-InSync noon (from_connection 7 set_request) (some 8) (new_replica 0)
      (new_replica 1) (record { view = refl; op = refl; log = refl }) refl refl

-- The same request on two connections, while the first is pending.
abbrev asked : Replica
asked = handle_request (from_connection 7 set_request) (new_replica 0)

abbrev repetitions : List InboundMessage
repetitions = from_connection 7 set_request ∷ from_connection 9 set_request ∷ []

asked-pending : find client_id asked.state.client_table ≡ some (pending_entry 1)
unfolding handle_request handle_new_request log_request client_entry touch_entry find insert
    new_state u128_lt
asked-pending = refl

handle_request_repeated_example :
    LoggedNext (from_connection 7 set_request) (new_replica 0) asked
    × (handle_all repetitions asked
        ≡ record asked { sent = asked.sent ++ empty_replies repetitions })
unfolding client_entry find new_state
handle_request_repeated_example =
    handle_request_repeated (from_connection 7 set_request) (new_replica 0) asked repetitions
      (omega arith) asked-pending
      (record { client = refl; request = refl }, (record { client = refl; request = refl }, tt))
