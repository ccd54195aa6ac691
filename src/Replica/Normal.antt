-- ===== src/Replica/Normal.antt =====
-- Normal operation in server/replica.cpp: ping, request, prepare and commit, and the heartbeat.
pub mod Replication
pub mod Retry
use vsr_kv.Common.{ℕ, ◌%◌, Bool, false, not, ◌&&◌, ◌||◌, [], ◌∷◌, ltb, ◌==◌, if◌then◌else◌}
use vsr_kv.Common.Map.{insert, nat_key}
use vsr_kv.Utilities.{u128_key}
use vsr_kv.Message.{VsrMessage, Command}
use vsr_kv.Serialization.{LogEntry, ClientTableEntry}
use vsr_kv.ReplicaState.{ReplicaState, inc64, is_primary, is_normal}
use vsr_kv.Replica.{
  Replica, InboundMessage, Env, Output, emit, with_state, header_of, client_entry, touch_entry,
}
use vsr_kv.Replica.Execute.{execute_commited_ops}

unfoldable pub handle_ping : InboundMessage → Replica → Replica
handle_ping inbound r =
    let ping_msg = inbound.message in
    let pong_msg : VsrMessage = record {
      header = record (header_of Command.pong) {
        view = r.state.view;
        replica = r.state.id % 256;
        client = ping_msg.header.client;
        request = ping_msg.header.request;
      };
      payload = [];
    } in
    emit (Output.send_message inbound.connection pong_msg) r

unfoldable pub check_can_process_request : VsrMessage → ReplicaState → Bool
check_can_process_request msg s = is_normal s.status && is_primary s

-- The entry of a client whose request has been logged and not yet run.
abbrev pub pending_entry : ℕ → ClientTableEntry
pending_entry request = record { request_number = request; executed = false; result = [] }

-- The reply to a request that the client table already knows.
unfoldable pub cached_reply : VsrMessage → ClientTableEntry → VsrMessage
cached_reply request_msg client = record {
  header = record (header_of Command.reply) {
    client = request_msg.header.client;
    request = request_msg.header.request;
  };
  payload = client.result;
}

-- The log entry of a new request.
unfoldable pub request_entry : VsrMessage → ReplicaState → LogEntry
request_entry request_msg s = record {
  view = s.view;
  op_type = request_msg.header.operation;
  client_id = request_msg.header.client;
  request_num = request_msg.header.request;
  payload = request_msg.payload;
  prepare_ok_acks = s.id ∷ [];
}

unfoldable pub prepare_message : VsrMessage → ReplicaState → VsrMessage
prepare_message request_msg s = record {
  header = record (header_of Command.prepare) {
    operation = request_msg.header.operation;
    replica = s.id % 256;
    client = request_msg.header.client;
    request = request_msg.header.request;
    view = s.view;
    op = s.op;
    commit = s.commit;
  };
  payload = request_msg.payload;
}

-- The state after a new request has been logged.
unfoldable pub log_request : VsrMessage → ReplicaState → ReplicaState
unfolding request_entry
log_request request_msg s =
    let op = inc64 s.op in
    record s {
      op = op;
      log = insert op (request_entry request_msg s) s.log;
      client_table =
          insert request_msg.header.client (pending_entry request_msg.header.request)
            s.client_table;
    }

unfoldable pub handle_new_request : InboundMessage → Replica → Replica
handle_new_request inbound r =
    let request_msg = inbound.message in
    let s = log_request request_msg r.state in
    emit (Output.broadcast_to_peers (prepare_message request_msg s)) (record r {
      state = s;
      client_connections = insert request_msg.header.client inbound.connection r.client_connections;
    })

unfoldable pub handle_request : InboundMessage → Replica → Replica
handle_request inbound r =
    let request_msg = inbound.message in
    let client = client_entry request_msg.header.client r.state.client_table in
    let r1 : Replica = record r {
      state = record (r.state) {
        client_table = touch_entry request_msg.header.client r.state.client_table;
      };
    } in
    if ltb request_msg.header.request client.request_number
    then r1
    else if client.request_number == request_msg.header.request
    then emit (Output.send_message inbound.connection (cached_reply request_msg client)) r1
    else handle_new_request inbound r1

unfoldable pub check_can_process_prepare : VsrMessage → ReplicaState → Bool
check_can_process_prepare msg s =
    is_normal s.status
    && (not (is_primary s) && (msg.header.view == s.view && msg.header.op == inc64 s.op))

-- `commit_ = commit; execute_commited_ops()`, where that is progress.
unfoldable pub adopt_commit : ℕ → Replica → Replica
adopt_commit commit r =
    if ltb r.state.commit commit
    then execute_commited_ops (with_state (record (r.state) { commit = commit }) r)
    else r

unfoldable pub log_prepare : VsrMessage → ReplicaState → ReplicaState
log_prepare prepare_msg s =
    let op = inc64 s.op in
    let entry : LogEntry = record {
      view = s.view;
      op_type = prepare_msg.header.operation;
      client_id = prepare_msg.header.client;
      request_num = prepare_msg.header.request;
      payload = prepare_msg.payload;
      prepare_ok_acks = [];
    } in
    record s {
      op = op;
      log = insert op entry s.log;
      client_table =
          insert prepare_msg.header.client (pending_entry prepare_msg.header.request)
            s.client_table;
    }

abbrev pub prepare_ok_message : ℕ → ReplicaState → VsrMessage
prepare_ok_message op s = record {
  header = record (header_of Command.prepare_ok) { view = s.view; op = op; replica = s.id % 256 };
  payload = [];
}

unfoldable pub handle_prepare : Env → InboundMessage → Replica → Replica
handle_prepare env inbound r =
    let prepare_msg = inbound.message in
    let s = log_prepare prepare_msg r.state in
    let r1 = record r { state = s; last_primary_contact = env.now } in
    adopt_commit prepare_msg.header.commit
      (emit (Output.send_message inbound.connection (prepare_ok_message s.op s)) r1)

unfoldable pub check_can_process_commit : VsrMessage → ReplicaState → Bool
check_can_process_commit msg s =
    is_normal s.status && (not (is_primary s) && msg.header.view == s.view)

unfoldable pub handle_commit : Env → InboundMessage → Replica → Replica
unfolding adopt_commit
handle_commit env inbound r =
    adopt_commit inbound.message.header.commit (record r { last_primary_contact = env.now })

unfoldable pub send_commit_message_if_needed : Replica → Replica
send_commit_message_if_needed r =
    let s = r.state in
    let commit_msg : VsrMessage = record {
      header = record (header_of Command.commit) { view = s.view; commit = s.commit };
      payload = [];
    } in
    if not (is_primary s) || not (is_normal s.status)
    then r
    else emit (Output.broadcast_to_peers commit_msg) r
