-- ===== src/Replica/Invariant/Normal.antt =====
-- Normal operation keeps the invariant.
use vsr_kv.Message.Ranges.{Bytes, InRange}
use vsr_kv.Common.{
  ℕ, ◌^◌, ◌<◌, inl, inr, not, ◌||◌, [], arith, ltb, ◌==◌, Bool-cases, Option-cases, length, All,
}
use vsr_kv.Common.Map.{find, nat_key}
use vsr_kv.Common.Map.Every.{insert-All, find-All}
use vsr_kv.Utilities.{U128, u128_key}
use vsr_kv.Message.{VsrMessage}
use vsr_kv.Serialization.{LogEntry, ClientTableEntry}
use vsr_kv.Serialization.Ranges.{EntryInRange, insert-LogInRange}
use vsr_kv.ReplicaState.{ReplicaState, inc64, is_primary, is_normal}
use vsr_kv.Replica.{
  Replica, InboundMessage, Env, ClientTable, client_entry, touch_entry, with_state,
}
use vsr_kv.Replica.Normal.{
  handle_ping, pending_entry, cached_reply, request_entry, prepare_message, log_request,
  handle_new_request, handle_request, adopt_commit, log_prepare, prepare_ok_message, handle_prepare,
  handle_commit, send_commit_message_if_needed,
}
use vsr_kv.Replica.Invariant.{ResultBytes, StateInv, Inv, emit-Inv, with_state-Inv, InboundInRange}
use vsr_kv.Replica.Invariant.Execute.{
  touch_entry-ResultBytes, with_table-Inv, execute_commited_ops-Inv,
}

-- The members of a replica that the invariant does not read.
pub other-Inv :
    (contact : ℕ) (r : Replica) → Inv r → Inv (record r { last_primary_contact = contact })
other-Inv contact r v = ground arith

pub handle_ping-Inv :
    (inbound : InboundMessage) (r : Replica)
    → InRange inbound.message
    → Inv r
    → Inv (handle_ping inbound r)
unfolding handle_ping
handle_ping-Inv inbound r m v =
    emit-Inv _ r (record { header = ground (arith, m.header); payload = tt }) v

pub entry_result-Bytes :
    (client : U128) (table : ClientTable)
    → All ResultBytes table
    → Bytes (client_entry client table).result
unfolding client_entry
entry_result-Bytes client table h = elim (Option-cases (find client table)) [
  | inl e ↦ rw (e, client_entry) tt
  | inr (entry, e) ↦ rw (e, client_entry) (find-All ResultBytes client entry table h e)
]

cached_reply-InRange :
    (m : VsrMessage) (entry : ClientTableEntry)
    → InRange m
    → Bytes entry.result
    → InRange (cached_reply m entry)
unfolding cached_reply
cached_reply-InRange m entry f b = record { header = ground (arith, f.header); payload = b }

log_request-Inv :
    (m : VsrMessage) (s : ReplicaState)
    → InRange m
    → length m.payload < 2 ^ 64
    → StateInv s
    → StateInv (log_request m s)
unfolding log_request request_entry
log_request-Inv m s f n v =
    let op = inc64 s.op in
    let entry : LogEntry = request_entry m s in
    let fits : EntryInRange (op, entry) = ground (arith, f.header) in
    let log = insert-LogInRange op entry s.log fits v.log in
    let table =
      insert-All ResultBytes m.header.client (pending_entry m.header.request) s.client_table tt
        v.client_table in
    ground (arith, log, table)

prepare_message-InRange :
    (m : VsrMessage) (s : ReplicaState) → InRange m → StateInv s → InRange (prepare_message m s)
unfolding prepare_message
prepare_message-InRange m s f v = record { header = ground (arith, f.header); payload = f.payload }

handle_new_request-Inv :
    (inbound : InboundMessage) (r : Replica)
    → InboundInRange inbound
    → Inv r
    → Inv (handle_new_request inbound r)
unfolding handle_new_request
handle_new_request-Inv inbound r m v =
    let s = log_request-Inv inbound.message r.state m.0 m.1 v.state in
    emit-Inv _ _
      (prepare_message-InRange inbound.message (log_request inbound.message r.state) m.0 s)
      (ground (arith, s))

pub handle_request-Inv :
    (inbound : InboundMessage) (r : Replica)
    → InboundInRange inbound
    → Inv r
    → Inv (handle_request inbound r)
unfolding handle_request
handle_request-Inv inbound r m v =
    elim (Bool-cases (ltb request.header.request entry.request_number)) [
      | inl e ↦ rw e touched
      | inr e ↦ elim (Bool-cases (entry.request_number == request.header.request)) [
        | inl d ↦ rw (e, d) (emit-Inv _ r1 (cached_reply-InRange request entry m.0 bytes) touched)
        | inr d ↦ rw (e, d) (handle_new_request-Inv inbound r1 m touched)
      ]
    ]
  where
    request : VsrMessage
    request = inbound.message

    entry : ClientTableEntry
    entry = client_entry request.header.client r.state.client_table

    table : ClientTable
    table = touch_entry request.header.client r.state.client_table

    r1 : Replica
    r1 = with_state (record (r.state) { client_table = table }) r

    bytes : Bytes entry.result
    bytes = entry_result-Bytes request.header.client r.state.client_table v.state.client_table

    touched : Inv r1
    touched =
        with_table-Inv table r
          (touch_entry-ResultBytes request.header.client r.state.client_table v.state.client_table)
          v

adopt_commit-Inv :
    (commit : ℕ) (r : Replica) → commit < 2 ^ 64 → Inv r → Inv (adopt_commit commit r)
unfolding adopt_commit
adopt_commit-Inv commit r h v = elim (Bool-cases (ltb r.state.commit commit)) [
  | inl e ↦ rw e (execute_commited_ops-Inv _ (with_state-Inv _ r (ground arith) v))
  | inr e ↦ rw e v
]

log_prepare-Inv :
    (m : VsrMessage) (s : ReplicaState)
    → InRange m
    → length m.payload < 2 ^ 64
    → StateInv s
    → StateInv (log_prepare m s)
unfolding log_prepare
log_prepare-Inv m s f n v =
    let op = inc64 s.op in
    let entry : LogEntry = record {
      view = s.view;
      op_type = m.header.operation;
      client_id = m.header.client;
      request_num = m.header.request;
      payload = m.payload;
      prepare_ok_acks = [];
    } in
    let fits : EntryInRange (op, entry) = ground (arith, f.header) in
    let log = insert-LogInRange op entry s.log fits v.log in
    let table =
      insert-All ResultBytes m.header.client (pending_entry m.header.request) s.client_table tt
        v.client_table in
    ground (arith, log, table)

pub prepare_ok_message-InRange :
    (op : ℕ) (s : ReplicaState) → op < 2 ^ 64 → StateInv s → InRange (prepare_ok_message op s)
prepare_ok_message-InRange op s h v = record { header = ground arith; payload = tt }

pub handle_prepare-Inv :
    (env : Env) (inbound : InboundMessage) (r : Replica)
    → InboundInRange inbound
    → Inv r
    → Inv (handle_prepare env inbound r)
unfolding handle_prepare
handle_prepare-Inv env inbound r m v =
    let s = log_prepare-Inv inbound.message r.state m.0 m.1 v.state in
    adopt_commit-Inv inbound.message.header.commit _ (m.0.header.commit)
      (emit-Inv _ _ (prepare_ok_message-InRange _ _ s.op s) (ground (arith, s)))

pub handle_commit-Inv :
    (env : Env) (inbound : InboundMessage) (r : Replica)
    → InboundInRange inbound
    → Inv r
    → Inv (handle_commit env inbound r)
unfolding handle_commit
handle_commit-Inv env inbound r m v =
    adopt_commit-Inv inbound.message.header.commit _ (m.0.header.commit) (other-Inv env.now r v)

pub send_commit_message-Inv : (r : Replica) → Inv r → Inv (send_commit_message_if_needed r)
unfolding send_commit_message_if_needed
send_commit_message-Inv r v =
    elim (Bool-cases (not (is_primary r.state) || not (is_normal r.state.status))) [
      | inl e ↦ rw e v
      | inr e ↦ rw e (emit-Inv _ r (record { header = ground (arith, v.state); payload = tt }) v)
    ]
