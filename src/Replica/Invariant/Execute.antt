-- ===== src/Replica/Invariant/Execute.antt =====
-- Execution and the commit number keep the invariant.
use vsr_kv.Message.Ranges.{Bytes, InRange}
use vsr_kv.Common.IntSet
use vsr_kv.Replica.Commit.{
  advance_loop, has_quorum, advance_primary_commit_number, handle_prepare_ok,
}
use vsr_kv.Common.{
  ℕ, zero, suc, ◌-◌, ◌^◌, ◌<◌, ◌≡◌, refl, inl, inr, true, Option, none, some, List, [], ◌∷◌, arith,
  Bool-cases, Option-cases, length, All, All-append,
}
use vsr_kv.Common.Map.{find, insert, nat_key}
use vsr_kv.Common.Map.Text.{text_key}
use vsr_kv.Common.Map.Every.{insert-All, find-All}
use vsr_kv.Utilities.{U128, u128_key}
use vsr_kv.Message.{VsrMessage, Operation}
use vsr_kv.Wire.Bytes.{IsByte}
use vsr_kv.Serialization.{Log, LogEntry, ClientTableEntry}
use vsr_kv.Serialization.Ranges.{EntryInRange, LogInRange, insert-LogInRange}
use vsr_kv.ReplicaState.{ReplicaState, inc64, is_primary}
use vsr_kv.Replica.{
  Replica, Output, ClientTable, touch_entry, with_state, emit, Connection, InboundMessage,
}
use vsr_kv.Replica.Execute.{
  skip_spaces, until_space, is_space, extract, StateMachine, run_operation, reply_to_client,
  apply_entry, result_of, execute_op, execute_loop, execute_commited_ops, not_found,
}
use vsr_kv.Replica.Execute.Machine.{
  execute_op_cases, execute_loop_cases, executed, applied, skipped,
}
use vsr_kv.Replica.Invariant.{ValueBytes, ResultBytes, StateInv, Inv, emit-Inv, with_state-Inv}

skip_spaces-Bytes : (cs : List ℕ) → Bytes cs → Bytes (skip_spaces cs)
skip_spaces-Bytes [] b = tt
skip_spaces-Bytes (c ∷ cs) b = elim (Bool-cases (is_space c)) [
  | inl e ↦ rw e (skip_spaces-Bytes cs b.1)
  | inr e ↦ rw e b
]

until_space-Bytes : (cs : List ℕ) → Bytes cs → Bytes (until_space cs).0 × Bytes (until_space cs).1
until_space-Bytes [] b = (tt, tt)
until_space-Bytes (c ∷ cs) b =
    let r = until_space-Bytes cs b.1 in
    elim (Bool-cases (is_space c)) [ inl e ↦ rw e (tt, b) | inr e ↦ rw e ((b.0, r.0), r.1) ]

extract-Bytes : (ss : List ℕ) → Bytes ss → Bytes (extract ss).0 × Bytes (extract ss).1
unfolding extract
extract-Bytes ss b = until_space-Bytes (skip_spaces ss) (skip_spaces-Bytes ss b)

-- The new state machine holds bytes, and the result is bytes.
Ran : StateMachine × List ℕ → Type 0
Ran (machine, result) = All ValueBytes machine × Bytes result

found-Bytes :
    (found : Option (List ℕ))
    → ((value : List ℕ) → found ≡ some value → Bytes value)
    → Bytes (elim found [ none ↦ not_found | some value ↦ value ])
found-Bytes none h = omega arith
found-Bytes (some value) h = h value refl

run_operation-Bytes :
    (o : Operation) (payload : List ℕ) (machine : StateMachine)
    → Bytes payload
    → All ValueBytes machine
    → Ran (run_operation o payload machine)
unfolding Ran run_operation
run_operation-Bytes Operation.set payload machine b m =
    let k = extract-Bytes payload b in
    let v = extract-Bytes (extract payload).1 k.1 in
    (
      insert-All ValueBytes (extract payload).0 (extract (extract payload).1).0 machine v.0 m,
      All-append IsByte (b'S' ∷ b'E' ∷ b'T' ∷ b' ' ∷ []) _ (omega arith)
          (All-append IsByte (extract payload).0 _ k.0 (omega arith, v.0)),
    )
run_operation-Bytes Operation.get payload machine b m = (
  m,
  found-Bytes (find (extract payload).0 machine)
      (λ value e. find-All ValueBytes (extract payload).0 value machine m e),
)
run_operation-Bytes Operation.reserved payload machine b m = (m, tt)
run_operation-Bytes Operation.update payload machine b m = (m, tt)
run_operation-Bytes (Operation.other n) payload machine b m = (m, tt)

pub touch_entry-ResultBytes :
    (client : U128) (table : ClientTable)
    → All ResultBytes table
    → All ResultBytes (touch_entry client table)
unfolding touch_entry
touch_entry-ResultBytes client table h = elim (Option-cases (find client table)) [
  | inl e ↦ rw (e, touch_entry) (insert-All ResultBytes client _ table tt h)
  | inr (entry, e) ↦ rw (e, touch_entry) h
]

apply_entry-Inv :
    (op : ℕ) (entry : LogEntry) (s : ReplicaState)
    → EntryInRange (op, entry)
    → StateInv s
    → StateInv (apply_entry entry s) × Bytes (result_of entry s)
unfolding apply_entry Ran
apply_entry-Inv op entry s e v =
    let r =
      run_operation-Bytes entry.op_type entry.payload s.state_machine e.payload v.state_machine in
    let done : ClientTableEntry = record {
      request_number = entry.request_num;
      executed = true;
      result = result_of entry s;
    } in
    let table = insert-All ResultBytes entry.client_id done s.client_table r.1 v.client_table in
    (ground (arith, table), r.1)

reply_connected-Inv :
    (c : Option Connection) (msg : VsrMessage) (r : Replica)
    → InRange msg
    → Inv r
    → Inv (elim c [
      | none ↦ r
      | some none ↦ r
      | some (some connection) ↦ emit (Output.send_message (some connection) msg) r
    ])
reply_connected-Inv none msg r m v = v
reply_connected-Inv (some none) msg r m v = v
reply_connected-Inv (some (some connection)) msg r m v =
    emit-Inv (Output.send_message (some connection) msg) r m v

reply_to_client-Inv :
    (op : ℕ) (entry : LogEntry) (result : List ℕ) (r : Replica)
    → EntryInRange (op, entry)
    → Bytes result
    → Inv r
    → Inv (reply_to_client entry result r)
unfolding reply_to_client
reply_to_client-Inv op entry result r e b v = elim (Bool-cases (is_primary r.state)) [
  | inr p ↦ rw p v
  | inl p ↦ rw p (
      reply_connected-Inv (find entry.client_id r.client_connections) _ r
        (record { header = ground arith; payload = b }) v)
]

-- `last_executed_op` is set to another number of its type.
executed-Inv : (op : ℕ) (r : Replica) → op < 2 ^ 64 → Inv r → Inv (executed op r)
executed-Inv op r h v = ground arith

pub with_table-Inv :
    (table : ClientTable) (r : Replica)
    → All ResultBytes table
    → Inv r
    → Inv (with_state (record (r.state) { client_table = table }) r)
with_table-Inv table r h v = ground arith

execute_op-Inv :
    (op : ℕ) (entry : LogEntry) (r : Replica)
    → EntryInRange (op, entry)
    → Inv r
    → Inv (execute_op op entry r)
execute_op-Inv op entry r e v =
    execute_op_cases Inv op entry r
      (λ t. executed-Inv op (skipped entry r) e.fits.op_num (
        with_table-Inv (touch_entry entry.client_id r.state.client_table) r
          (touch_entry-ResultBytes entry.client_id r.state.client_table v.state.client_table) v))
      λ t.
        let a = apply_entry-Inv op entry r.state e v.state in
        executed-Inv op (applied entry r) e.fits.op_num (
          reply_to_client-Inv op entry (result_of entry r.state)
            (with_state (apply_entry entry r.state) r) e a.1 (with_state-Inv _ r a.0 v))

execute_loop-Inv : (n : ℕ) (r : Replica) → Inv r → Inv (execute_loop n r)
execute_loop-Inv zero r v = unfold execute_loop in v
execute_loop-Inv (suc n) r v =
    execute_loop_cases Inv n r (λ t. v) (λ t h. v)
      λ entry t h.
        let op = inc64 r.state.last_executed_op in
        execute_loop-Inv n (execute_op op entry r) (
          execute_op-Inv op entry r
            (find-All EntryInRange op entry r.state.log v.state.log.entries h) v)

pub execute_commited_ops-Inv : (r : Replica) → Inv r → Inv (execute_commited_ops r)
unfolding execute_commited_ops
execute_commited_ops-Inv r v = execute_loop-Inv (r.state.commit - r.state.last_executed_op) r v

advance_loop_bound :
    (n f : ℕ) (log : Log) (commit : ℕ) → commit < 2 ^ 64 → advance_loop n f log commit < 2 ^ 64
unfolding advance_loop
advance_loop_bound zero f log commit h = h
advance_loop_bound (suc n) f log commit h = elim (Option-cases (find (inc64 commit) log)) [
  | inl e ↦ rw (e, advance_loop) h
  | inr (entry, e) ↦ elim (Bool-cases (has_quorum f entry)) [
    | inl q ↦ rw (e, q, advance_loop) (advance_loop_bound n f log (inc64 commit) (omega arith))
    | inr q ↦ rw (e, q, advance_loop) h
  ]
]

pub advance_primary_commit_number-Inv :
    (r : Replica) → Inv r → Inv (advance_primary_commit_number r)
unfolding advance_primary_commit_number
advance_primary_commit_number-Inv r v = elim (Bool-cases (is_primary r.state)) [
  | inr e ↦ rw e v
  | inl e ↦ rw e (execute_commited_ops-Inv _ (with_state-Inv _ r advanced v))
]
  where
    s : ReplicaState
    s = r.state

    commit : ℕ
    commit = advance_loop (length s.log) s.fault_tolerance_f s.log s.commit

    advanced : StateInv (record s { commit = commit })
    advanced =
        ground (
          arith,
          advance_loop_bound (length s.log) s.fault_tolerance_f s.log s.commit v.state.commit,
        )

with_log-Inv :
    (log : Log) (r : Replica)
    → LogInRange log
    → Inv r
    → Inv (with_state (record (r.state) { log = log }) r)
with_log-Inv log r h v = ground arith

pub handle_prepare_ok-Inv :
    (inbound : InboundMessage) (r : Replica) → Inv r → Inv (handle_prepare_ok inbound r)
unfolding handle_prepare_ok
handle_prepare_ok-Inv inbound r v =
    let op = inbound.message.header.op in
    elim (Option-cases (find op r.state.log)) [
      | inl e ↦ rw (e, handle_prepare_ok) v
      | inr (entry, e) ↦
          let old = find-All EntryInRange op entry r.state.log v.state.log.entries e in
          let entry' : LogEntry = record entry {
            prepare_ok_acks = IntSet.add inbound.message.header.replica entry.prepare_ok_acks;
          } in
          let new : EntryInRange (op, entry') = ground arith in
          rw (e, handle_prepare_ok)
            (advance_primary_commit_number-Inv _ (
              with_log-Inv (insert op entry' r.state.log) r
                (insert-LogInRange op entry' r.state.log new v.state.log) v))
    ]
