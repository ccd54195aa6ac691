-- ===== src/Tests/ViewChange.antt =====
-- The view change: election, StartView and the acknowledgements.
use vsr_kv.Common.Map.{find, insert}
use vsr_kv.Common.Map.Text.{text_lt}
use vsr_kv.Wire.Bytes.{to_bytes, of_bytes}
use vsr_kv.Wire.Pod.{read_pod, write_pod, pair, pair_value, via}
use vsr_kv.Utilities.{u128, u128_lt}
use vsr_kv.Message.Layout.{operation_pod, operation_byte, operation_of}
use vsr_kv.Tests.Data.{set_entry}
use vsr_kv.Replica.Commit.{has_quorum}
use vsr_kv.Replica.ViewChange.{select_all, become_primary, first_selection, select}
use vsr_kv.Replica.ViewChange.Acknowledgements.{become_primary-unacknowledged}
use vsr_kv.Replica.{client_entry, touch_entry}
use vsr_kv.Replica.Execute.{
  execute_commited_ops, execute_loop, execute_op, already_executed, apply_entry, run_operation,
  extract, reply_to_client,
}
use vsr_kv.ReplicaState.{new_state, is_primary, get_primary_id}
use vsr_kv.Serialization.{
  LogEntry, deserialize_do_view_change, read_log_from_buffer, read_entries, read_entry, read_bytes,
  write_log_to_buffer, write_entry,
}
use vsr_kv.Common.{false, ℕ, ◌≡◌, refl, some, [], ◌∷◌, arith}
use vsr_kv.Common.Map.{nat_key}
use vsr_kv.Tests.Data.{peers, two_entries, new_replica, noon, from_connection}
use vsr_kv.Tests.Wire.{two_entries-Fits}
use vsr_kv.Message.{VsrMessage, Command, zero_header}
use vsr_kv.Serialization.{serialize_do_view_change}
use vsr_kv.Serialization.RoundTrip.{strip_all}
use vsr_kv.ReplicaState.{ReplicaState, ReplicaStatus, get_primary_id, get_primary_id_for_view}
use vsr_kv.ReplicaState.Primary.{in_view, primary_of_odd_cluster}
use vsr_kv.Replica.{Replica, InboundMessage}
use vsr_kv.Replica.Normal.Replication.{InSync}
use vsr_kv.Replica.ViewChange.{handle_do_view_change, handle_start_view, start_view_message}
use vsr_kv.Replica.ViewChange.Adoption.{Adopts, readable, handle_do_view_change-Adopts}
use vsr_kv.Replica.ViewChange.StartView.{handle_start_view-InSync}

abbrev dvc_message : ℕ → ℕ → VsrMessage
dvc_message last_normal_view op = record {
  header = record zero_header { command = Command.do_view_change; view = 4; op = op; commit = 1 };
  payload =
      serialize_do_view_change (record { last_normal_view = last_normal_view; log = two_entries });
}

-- A payload that is cut off.
abbrev unreadable : VsrMessage
unreadable = record (dvc_message 9 9) { payload = [] }

abbrev candidate : Replica
candidate =
    let r = new_replica 1 in
    record r {
      state = record (r.state) {
        view = 4;
        do_view_change_received = dvc_message 2 2 ∷ unreadable ∷ [];
      };
    }

handle_do_view_change-Adopts_example :
    Adopts noon
      (dvc_message 2 2 ∷ readable noon (unreadable ∷ dvc_message 3 2 ∷ []))
      candidate.state
      (handle_do_view_change noon (from_connection 8 (dvc_message 3 2)) candidate).state
unfolding new_state
handle_do_view_change-Adopts_example =
    handle_do_view_change-Adopts noon (from_connection 8 (dvc_message 3 2)) candidate
      (dvc_message 2 2) (unreadable ∷ dvc_message 3 2 ∷ []) refl (omega arith)

primary_of_odd_cluster_example :
    get_primary_id_for_view (in_view 5 1 (peers 3 0)) 5
    ≡ some (get_primary_id (in_view 5 1 (peers 3 0)))
primary_of_odd_cluster_example =
    primary_of_odd_cluster 5 1 1 (peers 3 0) (omega arith) (omega arith) refl

-- The new primary of view 1.
abbrev elected : ReplicaState
elected = record ((new_replica 1).state) { view = 1; op = 2; commit = 1; log = two_entries }

abbrev follower : InboundMessage → Replica
follower m = handle_start_view noon m (new_replica 2)

handle_start_view-InSync_example :
    InSync elected (follower (from_connection 7 (start_view_message elected))).state
    × ((follower (from_connection 7 (start_view_message elected))).state.log
        ≡ strip_all two_entries)
    × ((follower (from_connection 7 (start_view_message elected))).state.commit ≡ 1)
    × ((follower (from_connection 7 (start_view_message elected))).state.status
        ≡ ReplicaStatus.normal)
handle_start_view-InSync_example =
    handle_start_view-InSync noon (some 7) elected (new_replica 2) two_entries-Fits

abbrev unacknowledged : LogEntry
unacknowledged = set_entry 2 []

become_primary-unacknowledged_example :
    (unacknowledged.prepare_ok_acks ≡ []) × (has_quorum 1 unacknowledged ≡ false)
unfolding become_primary select_all deserialize_do_view_change serialize_do_view_change
    read_log_from_buffer read_entries read_entry read_bytes write_log_to_buffer write_entry
    write_pod read_pod to_bytes of_bytes operation_pod operation_byte operation_of u128 pair
    pair_value via find insert first_selection select execute_commited_ops execute_loop execute_op
    already_executed client_entry apply_entry run_operation extract reply_to_client is_primary
    get_primary_id u128_lt touch_entry text_lt new_state
become_primary-unacknowledged_example =
    become_primary-unacknowledged noon (dvc_message 2 2) (dvc_message 3 2 ∷ []) (new_replica 1) 2
      unacknowledged refl
