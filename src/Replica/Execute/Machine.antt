-- ===== src/Replica/Execute/Machine.antt =====
-- Execution seen as a deterministic machine over the log: the part of a replica that
-- `execute_commited_ops` computes, apart from ids, views, connections and replies.
use vsr_kv.Common.{
  ℕ, zero, suc, ◌-◌, ◌≡◌, refl, ◌∙◌, inl, inr, true, false, ◌&&◌, none, some, List, arith, ltb,
  ◌==◌, if◌then◌else◌, Bool-cases, Option-cases,
}
use vsr_kv.Common.Map.{find, insert, nat_key}
use vsr_kv.Utilities.{u128_key}
use vsr_kv.Serialization.{LogEntry, Log}
use vsr_kv.ReplicaState.{inc64}
use vsr_kv.Replica.{with_state, Replica, client_entry, touch_entry, ClientTable}
use vsr_kv.Replica.Execute.{
  result_of, StateMachine, run_operation, reply_to_client, already_executed, apply_entry,
  execute_op, execute_loop, execute_commited_ops,
}

pub record Machine : Type 0 where
  pub state_machine : StateMachine
  pub client_table : ClientTable
  pub last_executed_op : ℕ

abbrev pub machine_of : Replica → Machine
machine_of r = record {
  state_machine = r.state.state_machine;
  client_table = r.state.client_table;
  last_executed_op = r.state.last_executed_op;
}

-- An entry is run unless the client's last executed request is the one of the entry.
unfoldable pub run_entry : ℕ → LogEntry → Machine → Machine
run_entry op entry m =
    let client = client_entry entry.client_id m.client_table in
    let (machine, result) = run_operation entry.op_type entry.payload m.state_machine in
    if client.request_number == entry.request_num && client.executed
    then record m {
      client_table = touch_entry entry.client_id m.client_table;
      last_executed_op = op;
    }
    else record {
      state_machine = machine;
      client_table =
          insert entry.client_id
            (record { request_number = entry.request_num; executed = true; result = result })
            m.client_table;
      last_executed_op = op;
    }

-- The entries behind the last executed one, up to the commit number or the first gap.
unfoldable pub run_log : ℕ → Log → ℕ → Machine → Machine
run_log zero log commit m = m
run_log (suc rounds) log commit m =
    let op = inc64 m.last_executed_op in
    let next : Machine = elim (find op log) [
      | none ↦ m
      | some entry ↦ run_log rounds log commit (run_entry op entry m)
    ] in
    if ltb m.last_executed_op commit then next else m

-- What execution leaves alone.
pub record Frame (r s : Replica) : Type 0 where
  pub id : s.state.id ≡ r.state.id
  pub fault_tolerance_f : s.state.fault_tolerance_f ≡ r.state.fault_tolerance_f
  pub cluster_config : s.state.cluster_config ≡ r.state.cluster_config
  pub status : s.state.status ≡ r.state.status
  pub view : s.state.view ≡ r.state.view
  pub op : s.state.op ≡ r.state.op
  pub commit : s.state.commit ≡ r.state.commit
  pub log : s.state.log ≡ r.state.log
  pub last_normal_view : s.state.last_normal_view ≡ r.state.last_normal_view
  pub message_queue : s.message_queue ≡ r.message_queue
  pub client_connections : s.client_connections ≡ r.client_connections

reply-state :
    (e : LogEntry) (result : List ℕ) (r : Replica)
    → ((reply_to_client e result r).state ≡ r.state)
      × ((reply_to_client e result r).message_queue ≡ r.message_queue)
      × ((reply_to_client e result r).client_connections ≡ r.client_connections)
unfolding reply_to_client
reply-state e result r = ground arith

-- A record with the operation number set.
abbrev pub executed : ℕ → Replica → Replica
executed op r = with_state (record (r.state) { last_executed_op = op }) r

abbrev pub applied : LogEntry → Replica → Replica
applied e r = reply_to_client e (result_of e r.state) (with_state (apply_entry e r.state) r)

abbrev pub skipped : LogEntry → Replica → Replica
skipped e r =
    with_state (record (r.state) { client_table = touch_entry e.client_id r.state.client_table }) r

pub execute_op_cases :
    (P : Replica → Type 0) (op : ℕ) (e : LogEntry) (r : Replica)
    → (already_executed e r.state ≡ true → P (executed op (skipped e r)))
    → (already_executed e r.state ≡ false → P (executed op (applied e r)))
    → P (execute_op op e r)
unfolding execute_op
execute_op_cases P op e r skip run = elim (Bool-cases (already_executed e r.state)) [
  | inl t ↦ rw (t, execute_op) (skip t)
  | inr t ↦ rw (t, execute_op) (run t)
]

pub execute_op-Frame : (op : ℕ) (e : LogEntry) (r : Replica) → Frame r (execute_op op e r)
unfolding apply_entry
execute_op-Frame op e r =
    execute_op_cases (Frame r) op e r (λ t. ground arith)
      (λ t.
        ground (arith, reply-state e (result_of e r.state) (with_state (apply_entry e r.state) r)))

execute_op-machine :
    (op : ℕ) (e : LogEntry) (r : Replica)
    → machine_of (execute_op op e r) ≡ run_entry op e (machine_of r)
unfolding apply_entry run_entry already_executed
execute_op-machine op e r =
    execute_op_cases (λ s. machine_of s ≡ run_entry op e (machine_of r)) op e r
      (λ t. rw (t, run_entry))
      (λ t.
        rw (t, run_entry)
          (ground
            (arith, reply-state e (result_of e r.state) (with_state (apply_entry e r.state) r))))

pub Frame-refl : (r : Replica) → Frame r r
Frame-refl r = ground arith

pub Frame-trans : {r s t : Replica} → Frame r s → Frame s t → Frame r t
Frame-trans f g = record {
  id = g.id ∙ f.id;
  fault_tolerance_f = g.fault_tolerance_f ∙ f.fault_tolerance_f;
  cluster_config = g.cluster_config ∙ f.cluster_config;
  status = g.status ∙ f.status;
  view = g.view ∙ f.view;
  op = g.op ∙ f.op;
  commit = g.commit ∙ f.commit;
  log = g.log ∙ f.log;
  last_normal_view = g.last_normal_view ∙ f.last_normal_view;
  message_queue = g.message_queue ∙ f.message_queue;
  client_connections = g.client_connections ∙ f.client_connections;
}

-- One round of the loop, by its three ways to go on.
pub execute_loop_cases :
    (P : Replica → Type 0) (n : ℕ) (r : Replica)
    → (ltb r.state.last_executed_op r.state.commit ≡ false → P r)
    → (ltb r.state.last_executed_op r.state.commit ≡ true
        → find (inc64 r.state.last_executed_op) r.state.log ≡ none
        → P r)
    → ((e : LogEntry)
        → ltb r.state.last_executed_op r.state.commit ≡ true
        → find (inc64 r.state.last_executed_op) r.state.log ≡ some e
        → P (execute_loop n (execute_op (inc64 r.state.last_executed_op) e r)))
    → P (execute_loop (suc n) r)
unfolding execute_loop
execute_loop_cases P n r up gap go =
    elim (Bool-cases (ltb r.state.last_executed_op r.state.commit)) [
      | inr t ↦ rw (t, execute_loop) (up t)
      | inl t ↦ elim (Option-cases (find (inc64 r.state.last_executed_op) r.state.log)) [
        | inl h ↦ rw (t, h, execute_loop) (gap t h)
        | inr (e, h) ↦ rw (t, h, execute_loop) (go e t h)
      ]
    ]

execute_loop-Frame : (n : ℕ) (r : Replica) → Frame r (execute_loop n r)
execute_loop-Frame zero r = unfold execute_loop in Frame-refl r
execute_loop-Frame (suc n) r =
    execute_loop_cases (Frame r) n r (λ t. Frame-refl r) (λ t h. Frame-refl r)
      λ e t h. Frame-trans (execute_op-Frame _ e r) (execute_loop-Frame n (execute_op _ e r))

execute_loop-machine :
    (n : ℕ) (r : Replica)
    → machine_of (execute_loop n r) ≡ run_log n r.state.log r.state.commit (machine_of r)
unfolding run_log
execute_loop-machine zero r = unfold execute_loop in refl
execute_loop-machine (suc n) r =
    execute_loop_cases
      (λ s. machine_of s ≡ run_log (suc n) r.state.log r.state.commit (machine_of r)) n r
      (λ t. rw (t, run_log)) (λ t h. rw (t, h, run_log))
      λ e t h.
        rw (t, h, run_log)
          (execute_loop-machine n (execute_op (inc64 r.state.last_executed_op) e r)
            ∙ rw (
              (execute_op-Frame (inc64 r.state.last_executed_op) e r).log,
              (execute_op-Frame (inc64 r.state.last_executed_op) e r).commit,
              execute_op-machine (inc64 r.state.last_executed_op) e r,
            ))

-- Execution changes the state machine, the client table and the number of the last executed
-- operation, and of the rest of the state nothing that the other handlers read.
pub execute_commited_ops-Frame : (r : Replica) → Frame r (execute_commited_ops r)
unfolding execute_commited_ops
execute_commited_ops-Frame r = execute_loop-Frame _ r

-- The execution of a replica is the run of the machine over its log: it does not depend on the
-- replica's id, role, view or connections, but on its client table as well.
pub execute_commited_ops-machine :
    (r : Replica)
    → machine_of (execute_commited_ops r)
      ≡ run_log
          (r.state.commit - r.state.last_executed_op)
          r.state.log
          r.state.commit
          (machine_of r)
unfolding execute_commited_ops
execute_commited_ops-machine r = execute_loop-machine _ r
