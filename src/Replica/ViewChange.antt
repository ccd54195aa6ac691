-- ===== src/Replica/ViewChange.antt =====
-- The view change in server/replica.cpp.
pub mod Choice
pub mod Adoption
pub mod StartView
pub mod Acknowledgements
use vsr_kv.Common.{
  ◌/◌, ℕ, zero, suc, ◌+◌, ◌-◌, ◌%◌, max, Bool, false, not, ◌&&◌, ◌||◌, none, some, List, [], ◌∷◌,
  ◌++◌, foldl, ltb, ◌==◌, if◌then◌else◌, length,
}
use vsr_kv.Common.Map.{find, insert, nat_key}
use vsr_kv.Common.IntSet
use vsr_kv.Utilities.{u128_key}
use vsr_kv.Message.{VsrMessage, Command}
use vsr_kv.Serialization.{
  LogEntry, Log, DoViewChangePayload, serialize_do_view_change, deserialize_do_view_change,
  serialize_start_view, deserialize_start_view,
}
use vsr_kv.ReplicaState.{
  ReplicaState, ReplicaStatus, inc32, inc64, is_primary, is_normal, is_view_change, enter_new_view,
  get_primary_id, get_primary_id_for_view, is_id,
}
use vsr_kv.Replica.{
  Replica, InboundMessage, Env, Output, emit, with_state, header_of, client_entry, touch_entry,
  ClientTable,
}
use vsr_kv.Replica.Execute.{execute_commited_ops}
use vsr_kv.Replica.Normal.{prepare_ok_message}

unfoldable pub initiate_view_change : Replica → Replica
unfolding enter_new_view
initiate_view_change r =
    let s = enter_new_view (inc32 r.state.view) r.state in
    let svc_msg : VsrMessage = record {
      header = record (header_of Command.start_view_change) { view = s.view; replica = s.id % 256 };
      payload = [];
    } in
    emit (Output.broadcast_to_peers svc_msg) (with_state s r)

-- Milliseconds.
abbrev pub primary_timeout : ℕ
primary_timeout = 2000

-- The difference of the two readings of the clock is cut to whole milliseconds.
unfoldable pub check_primary_liveness : Env → Replica → Replica
unfolding initiate_view_change
check_primary_liveness env r =
    if not (is_primary r.state)
      && (is_normal r.state.status
          && ltb primary_timeout ((env.now - r.last_primary_contact) / 1000000))
    then initiate_view_change r
    else r

-- The best state seen so far among the DoViewChange messages.
pub record Selection : Type 0 where
  pub best_payload : DoViewChangePayload
  pub best_op : ℕ
  pub max_commit : ℕ

abbrev pub fresh_payload : Env → DoViewChangePayload
fresh_payload env = record { last_normal_view = env.uninitialised; log = [] }

-- The result of the first `deserialize` is not looked at.
unfoldable pub first_selection : Env → ℕ → VsrMessage → Selection
first_selection env commit msg = record {
  best_payload = (deserialize_do_view_change msg.payload (fresh_payload env)).1;
  best_op = msg.header.op;
  max_commit = max commit msg.header.commit;
}

abbrev pub improves : DoViewChangePayload → ℕ → Selection → Bool
improves current op best =
    ltb best.best_payload.last_normal_view current.last_normal_view
    || (current.last_normal_view == best.best_payload.last_normal_view && ltb best.best_op op)

-- One round of the loop over the other messages.
unfoldable pub select : Env → Selection → VsrMessage → Selection
select env best msg =
    let (done, current) = deserialize_do_view_change msg.payload (fresh_payload env) in
    let better = improves current msg.header.op best in
    if done
    then record {
      best_payload = if better then current else best.best_payload;
      best_op = if better then msg.header.op else best.best_op;
      max_commit = max best.max_commit msg.header.commit;
    }
    else best

unfoldable pub select_all : Env → ℕ → VsrMessage → List VsrMessage → Selection
select_all env commit msg rest = foldl (select env) (first_selection env commit msg) rest

unfoldable pub start_view_message : ReplicaState → VsrMessage
start_view_message s = record {
  header = record (header_of Command.start_view) {
    view = s.view;
    op = s.op;
    commit = s.commit;
    replica = s.id % 256;
  };
  payload = serialize_start_view s.log;
}

-- The new primary takes over the selected log, and tells the others.
unfoldable pub become_primary : Selection → Replica → Replica
become_primary best r =
    let s : ReplicaState = record (r.state) {
      do_view_change_received = [];
      log = best.best_payload.log;
      op = best.best_op;
      commit = best.max_commit;
      status = ReplicaStatus.normal;
    } in
    execute_commited_ops (emit (Output.broadcast_to_peers (start_view_message s)) (with_state s r))

unfoldable pub check_can_process_do_view_change : VsrMessage → ReplicaState → Bool
check_can_process_do_view_change msg s =
    msg.header.view == s.view
    && (is_view_change s.status && is_id (get_primary_id_for_view s s.view) s.id)

unfoldable pub handle_do_view_change : Env → InboundMessage → Replica → Replica
handle_do_view_change env inbound r =
    let s = r.state in
    let received = s.do_view_change_received ++ (inbound.message ∷ []) in
    let waiting = with_state (record s { do_view_change_received = received }) r in
    elim received [
      | [] ↦ waiting
      | first ∷ rest ↦
          if ltb (length (first ∷ rest)) (s.fault_tolerance_f + 1)
          then waiting
          else become_primary (select_all env s.commit first rest) r
    ]

unfoldable pub do_view_change_message : ReplicaState → VsrMessage
do_view_change_message s = record {
  header = record (header_of Command.do_view_change) {
    view = s.view;
    op = s.op;
    commit = s.commit;
    replica = s.id % 256;
  };
  payload =
      serialize_do_view_change (record { last_normal_view = s.last_normal_view; log = s.log });
}

-- The state goes to the primary of the new view, which may be this replica.
unfoldable pub send_do_view_change : Env → Replica → Replica
send_do_view_change env r =
    let msg = do_view_change_message r.state in
    let new_primary_id = get_primary_id_for_view r.state r.state.view in
    if is_id new_primary_id r.state.id
    then handle_do_view_change env (record { connection = none; message = msg }) r
    else emit (Output.send_to_peer new_primary_id msg) r

unfoldable pub check_can_process_start_view_change : VsrMessage → ReplicaState → Bool
check_can_process_start_view_change msg s = msg.header.view == s.view && is_view_change s.status

unfoldable pub handle_start_view_change : Env → InboundMessage → Replica → Replica
handle_start_view_change env inbound r =
    let s = r.state in
    let received = IntSet.add inbound.message.header.replica s.start_view_change_received in
    if ltb (length received) (s.fault_tolerance_f + 1)
    then with_state (record s { start_view_change_received = received }) r
    else send_do_view_change env (with_state (record s { start_view_change_received = [] }) r)

unfoldable pub check_can_process_start_view : VsrMessage → ReplicaState → Bool
check_can_process_start_view msg s =
    msg.header.view == s.view
    && (is_view_change s.status && is_id (get_primary_id_for_view s s.view) msg.header.replica)

-- The client table learns the request numbers of the log.
unfoldable pub note_request : ClientTable → ℕ × LogEntry → ClientTable
note_request table (op_num, entry) =
    let client = client_entry entry.client_id table in
    if ltb client.request_number entry.request_num
    then insert entry.client_id
        (record client { request_number = entry.request_num; executed = false }) table
    else touch_entry entry.client_id table

-- `rounds` operations from `op_num` on; those in the log are acknowledged. In the source the loop
-- ends where its counter is above the operation number of the message. For the number 2 ^ 64 - 1
-- that is never, and the source does not return, while these rounds end after each number once.
unfoldable pub send_prepare_oks : ℕ → ℕ → Replica → Replica
send_prepare_oks zero op_num r = r
send_prepare_oks (suc rounds) op_num r =
    let s = r.state in
    send_prepare_oks rounds (inc64 op_num) (elim (find op_num s.log) [
      | none ↦ r
      | some entry ↦
          emit (Output.send_to_peer (some (get_primary_id s)) (prepare_ok_message op_num s)) r
    ])

unfoldable pub adopt_start_view : Env → VsrMessage → Log → Replica → Replica
unfolding note_request
adopt_start_view env sv_msg log r =
    let header = sv_msg.header in
    record r {
      state = record (r.state) {
        view = header.view;
        op = header.op;
        commit = header.commit;
        log = log;
        status = ReplicaStatus.normal;
        client_table = foldl note_request r.state.client_table log;
      };
      last_primary_contact = env.now;
    }

unfoldable pub handle_start_view : Env → InboundMessage → Replica → Replica
handle_start_view env inbound r =
    let sv_msg = inbound.message in
    let (done, log) = deserialize_start_view sv_msg.payload [] in
    let r1 = execute_commited_ops (adopt_start_view env sv_msg log r) in
    let first = inc64 sv_msg.header.commit in
    if done then send_prepare_oks (r1.state.op + 1 - first) first r1 else r
