-- ===== src/Replica/Execute.antt =====
-- `Replica::execute_commited_ops`.
pub mod Machine
pub mod Batches
pub mod Replies
use vsr_kv.Common.{
  ℕ, zero, suc, ◌-◌, Bool, true, ◌&&◌, ◌||◌, none, some, List, [], ◌∷◌, ◌++◌, ltb, leb, ◌==◌,
  if◌then◌else◌,
}
use vsr_kv.Common.Map.{Map, find, insert, nat_key}
use vsr_kv.Common.Map.Text.{text_key}
use vsr_kv.Utilities.{u128_key}
use vsr_kv.Message.{VsrMessage, Command, Operation}
use vsr_kv.Serialization.{LogEntry}
use vsr_kv.ReplicaState.{ReplicaState, inc64, is_primary}
use vsr_kv.Replica.{Replica, Output, emit, with_state, header_of, client_entry, touch_entry}

-- `std::isspace` in the "C" locale.
abbrev pub is_space : ℕ → Bool
is_space c = c == 32 || (leb 9 c && leb c 13)

abbrev pub skip_spaces : List ℕ → List ℕ
skip_spaces [] = []
skip_spaces (c ∷ cs) = if is_space c then skip_spaces cs else c ∷ cs

abbrev pub until_space : List ℕ → List ℕ × List ℕ
until_space [] = ([], [])
until_space (c ∷ cs) =
    let (word, rest) = until_space cs in if is_space c then ([], c ∷ cs) else (c ∷ word, rest)

-- `ss >> word` for a string that is empty before: it stays empty where the input has no word.
unfoldable pub extract : List ℕ → List ℕ × List ℕ
extract ss = until_space (skip_spaces ss)

abbrev set_prefix : List ℕ
set_prefix = b'S' ∷ b'E' ∷ b'T' ∷ b' ' ∷ []

abbrev pub not_found : List ℕ
not_found = b'N' ∷ b'O' ∷ b'T' ∷ b'_' ∷ b'F' ∷ b'O' ∷ b'U' ∷ b'N' ∷ b'D' ∷ []

abbrev pub StateMachine : Type 0
StateMachine = Map (List ℕ) (List ℕ)

-- The new state machine and the result.
unfoldable pub run_operation : Operation → List ℕ → StateMachine → StateMachine × List ℕ
unfolding extract
run_operation Operation.set payload machine =
    let (key, rest) = extract payload in
    let (value, _) = extract rest in
    (insert key value machine, set_prefix ++ (key ++ (b'=' ∷ value)))
run_operation Operation.get payload machine =
    let (key, _) = extract payload in
    (machine, elim (find key machine) [ none ↦ not_found | some value ↦ value ])
run_operation _ payload machine = (machine, [])

-- The reply of the primary, if it has a connection to the client.
unfoldable pub reply_to_client : LogEntry → List ℕ → Replica → Replica
reply_to_client entry result r =
    let reply_msg : VsrMessage = record {
      header = record (header_of Command.reply) {
        view = r.state.view;
        client = entry.client_id;
        request = entry.request_num;
      };
      payload = result;
    } in
    if is_primary r.state
    then elim (find entry.client_id r.client_connections) [
      | none ↦ r
      | some none ↦ r
      | some (some connection) ↦ emit (Output.send_message (some connection) reply_msg) r
    ]
    else r

-- The state machine and the client table after the entry has been run.
unfoldable pub apply_entry : LogEntry → ReplicaState → ReplicaState
unfolding run_operation
apply_entry entry s =
    let (machine, result) = run_operation entry.op_type entry.payload s.state_machine in
    record s {
      state_machine = machine;
      client_table =
          insert entry.client_id
            (record { request_number = entry.request_num; executed = true; result = result })
            s.client_table;
    }

abbrev pub result_of : LogEntry → ReplicaState → List ℕ
unfolding run_operation
result_of entry s = (run_operation entry.op_type entry.payload s.state_machine).1

-- Whether the client table says that the entry has been run.
unfoldable pub already_executed : LogEntry → ReplicaState → Bool
already_executed entry s =
    let client = client_entry entry.client_id s.client_table in
    client.request_number == entry.request_num && client.executed

-- One round of the loop.
unfoldable pub execute_op : ℕ → LogEntry → Replica → Replica
execute_op op_to_execute entry r =
    let r1 =
      if already_executed entry r.state
      then with_state
          (record (r.state) { client_table = touch_entry entry.client_id r.state.client_table }) r
      else reply_to_client entry (result_of entry r.state)
          (with_state (apply_entry entry r.state) r) in
    with_state (record (r1.state) { last_executed_op = op_to_execute }) r1

unfoldable pub execute_loop : ℕ → Replica → Replica
execute_loop zero r = r
execute_loop (suc rounds) r =
    let op_to_execute = inc64 r.state.last_executed_op in
    let next : Replica = elim (find op_to_execute r.state.log) [
      | none ↦ r
      | some entry ↦ execute_loop rounds (execute_op op_to_execute entry r)
    ] in
    if ltb r.state.last_executed_op r.state.commit then next else r

-- Each round executes one more operation, so the distance to the commit number is enough.
unfoldable pub execute_commited_ops : Replica → Replica
unfolding execute_loop
execute_commited_ops r = execute_loop (r.state.commit - r.state.last_executed_op) r
