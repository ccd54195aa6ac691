-- ===== src/Tests/Queue.antt =====
-- The message queue.
use vsr_kv.Common.{◌≡◌, refl, List, [], ◌∷◌, arith}
use vsr_kv.Tests.Data.{set_request, new_replica, noon, from_connection, plain}
use vsr_kv.Message.{Command}
use vsr_kv.ReplicaState.{ReplicaStatus, new_state, is_primary}
use vsr_kv.Replica.{Replica, InboundMessage, with_state}
use vsr_kv.Replica.ViewChange.{initiate_view_change}
use vsr_kv.Replica.Queue.{Verdict, verdict, process_message_queue}
use vsr_kv.Replica.Queue.Join.{NextView, join_view_change_stalls}
use vsr_kv.Replica.Queue.Blocked.{enqueue_all, request_blocks_backup, recovery_blocked}

abbrev with_queue : List InboundMessage → Replica → Replica
with_queue q r = record r { message_queue = q }

abbrev request_first : Replica
request_first = with_queue (from_connection 7 set_request ∷ []) (new_replica 1)

abbrev prepare : InboundMessage
prepare = from_connection 8 (plain Command.prepare 0)

request_blocks_backup_example :
    enqueue_all noon (prepare ∷ prepare ∷ []) request_first
    ≡ with_queue (from_connection 7 set_request ∷ prepare ∷ prepare ∷ []) request_first
unfolding is_primary new_state
request_blocks_backup_example =
    request_blocks_backup noon (from_connection 7 set_request) [] (prepare ∷ prepare ∷ [])
      request_first refl refl refl refl (omega arith)

abbrev recovering : Replica
recovering =
    let r = new_replica 1 in
    with_queue (prepare ∷ []) (with_state (record (r.state) { status = ReplicaStatus.recovery }) r)

abbrev answer : InboundMessage
answer = from_connection 8 (plain Command.recovery_response 0)

recovery_blocked_example :
    enqueue_all noon (answer ∷ answer ∷ []) recovering
    ≡ with_queue (prepare ∷ answer ∷ answer ∷ []) recovering
unfolding new_state
recovery_blocked_example =
    recovery_blocked noon prepare [] (answer ∷ answer ∷ []) recovering refl refl tt (omega arith)

abbrev invitation : InboundMessage
invitation = from_connection 8 (plain Command.start_view_change 1)

abbrev invited : Replica
invited = with_queue (invitation ∷ []) (new_replica 2)

invited-NextView : NextView invitation [] invited
unfolding new_state
invited-NextView = ground arith

join_view_change_stalls_example :
    (process_message_queue noon invited
      ≡ record (initiate_view_change invited) { message_queue = invitation ∷ [] })
    × (verdict invitation (process_message_queue noon invited).state ≡ Verdict.handle)
join_view_change_stalls_example =
    join_view_change_stalls noon invitation [] invited invited-NextView
