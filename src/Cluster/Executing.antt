-- ===== src/Cluster/Executing.antt =====
-- The machine of execute_commited_ops over a log: what it has executed after each entry.
use vsr_kv.Common.{
  ℕ, zero, suc, ◌-◌, ◌^◌, ◌≤◌, ◌<◌, ◌≡◌, refl, sym, ap, subst, ◌∙◌, inl, inr, Bool, true, false,
  ◌&&◌, Option, none, some, List, arith, dec_lt, ltb, ◌==◌, ltb→lt, Bool-cases, Option-cases,
}
use vsr_kv.Common.Map.{find, insert, nat_key, key_cases, find-insert_self, find-insert_other}
use vsr_kv.Utilities.{U128, u128_key}
use vsr_kv.Serialization.{LogEntry, Log, ClientTableEntry}
use vsr_kv.ReplicaState.{inc64}
use vsr_kv.Replica.{client_entry, touch_entry, ClientTable}
use vsr_kv.Replica.Execute.{run_operation}
use vsr_kv.Replica.Execute.Machine.{Machine, run_entry, run_log}
use vsr_kv.Cluster.Replay.{run_one, replay}
use vsr_kv.Cluster.Executed.{Logged, Executed, Logged-later, Quiet, touch-Quiet}

client_entry-found :
    (client : U128) (table : ClientTable) (entry : ClientTableEntry)
    → find client table ≡ some entry
    → client_entry client table ≡ entry
unfolding client_entry
client_entry-found client table entry f = rw (f, client_entry) refl

client_entry-missing :
    (client : U128) (table : ClientTable)
    → find client table ≡ none
    → (client_entry client table).executed ≡ false
unfolding client_entry
client_entry-missing client table f = rw (f, client_entry) refl

abbrev marked : ClientTableEntry → LogEntry → Bool
marked client e = client.request_number == e.request_num && client.executed

marked-both :
    (client : ClientTableEntry) (e : LogEntry)
    → marked client e ≡ true
    → (client.request_number ≡ e.request_num) × (client.executed ≡ true)
marked-both client e h = ground arith

-- An entry of the log that the client table marks as executed has been passed before.
already-Logged :
    (log : Log) (m : Machine) (e : LogEntry)
    → Executed log m
    → marked (client_entry e.client_id m.client_table) e ≡ true
    → Logged m.last_executed_op log e.client_id e.request_num
already-Logged log m e x h =
    let (r, d) = marked-both (client_entry e.client_id m.client_table) e h in
    elim (Option-cases (find e.client_id m.client_table)) [
      | inl f ↦ absurd (cc (client_entry-missing e.client_id m.client_table f, d))
      | inr (entry, f) ↦
          let same = client_entry-found e.client_id m.client_table entry f in
          subst (Logged m.last_executed_op log e.client_id)
            (ap (λ c. c.request_number) (sym same) ∙ r)
            (x.table e.client_id entry f (ap (λ c. c.executed) (sym same) ∙ d))
    ]

passed-Executed :
    (log : Log) (m t : Machine) (e : LogEntry)
    → find (suc m.last_executed_op) log ≡ some e
    → Logged m.last_executed_op log e.client_id e.request_num
    → Quiet m t
    → Executed log m
    → Executed log (record t { last_executed_op = suc m.last_executed_op })
passed-Executed log m t e f (k, d, p, l, g, c, r) q x = record {
  table = λ client entry z w.
      Logged-later m.last_executed_op (suc m.last_executed_op) log client entry.request_number
        (omega arith) (x.table client entry (q.table client entry z w) w);
  machine =
      λ n. absurd (n k (suc m.last_executed_op) d e p (omega (arith, l)) (omega arith) g f c r);
}

applied-Executed :
    (log : Log) (m : Machine) (e : LogEntry) (result : List ℕ)
    → find (suc m.last_executed_op) log ≡ some e
    → Executed log m
    → Executed log (record {
      state_machine = (run_operation e.op_type e.payload m.state_machine).0;
      client_table =
          insert e.client_id
            (record { request_number = e.request_num; executed = true; result = result })
            m.client_table;
      last_executed_op = suc m.last_executed_op;
    })
applied-Executed log m e result f x = record {
  table = λ client entry z w. elim (key_cases client e.client_id) [
    | inl s ↦ (
      suc m.last_executed_op,
      e,
      omega arith,
      omega arith,
      f,
      sym s,
      ap request_of (
          sym (find-insert_self e.client_id new m.client_table)
          ∙ ap (λ k. find k (insert e.client_id new m.client_table)) (sym s)
          ∙ z),
    )
    | inr s ↦
        Logged-later m.last_executed_op (suc m.last_executed_op) log client entry.request_number
          (omega arith)
          (x.table client entry
            (sym (find-insert_other e.client_id client new m.client_table s) ∙ z) w)
  ];
  machine = λ n.
      ap (λ s. run_one (some e) s) (x.machine (λ j k d e p l b. n j k d e p l (omega (arith, b))))
      ∙ ap (λ o. run_one o (replay m.last_executed_op log)) (sym f);
}
  where
    new : ClientTableEntry
    new = record { request_number = e.request_num; executed = true; result = result }

    request_of : Option ClientTableEntry → ℕ
    request_of none = 0
    request_of (some c) = c.request_number

-- The machine runs the next entry of the log.
run_entry-Executed :
    (log : Log) (m : Machine) (e : LogEntry)
    → find (suc m.last_executed_op) log ≡ some e
    → Executed log m
    → Executed log (run_entry (suc m.last_executed_op) e m)
unfolding run_entry
run_entry-Executed log m e f x =
    elim (Bool-cases (marked (client_entry e.client_id m.client_table) e)) [
      | inl h ↦
          rw (h, run_entry)
            (passed-Executed log m
              (record m { client_table = touch_entry e.client_id m.client_table }) e f
              (already-Logged log m e x h) (touch-Quiet e.client_id m) x)
      | inr h ↦ rw (h, run_entry) (applied-Executed log m e _ f x)
    ]

run_entry-last : (op : ℕ) (m : Machine) (e : LogEntry) → (run_entry op e m).last_executed_op ≡ op
unfolding run_entry
run_entry-last op m e = ground arith

-- The loop stops at the commit number.
pub run_log-commit :
    (rounds : ℕ) (log : Log) (commit : ℕ) (m : Machine)
    → m.last_executed_op ≤ commit
    → (run_log rounds log commit m).last_executed_op ≤ commit
unfolding run_log
run_log-commit zero log commit m l = l
run_log-commit (suc rounds) log commit m l = elim (Bool-cases (ltb m.last_executed_op commit)) [
  | inr h ↦ rw (h, run_log) l
  | inl h ↦ elim (Option-cases (find (inc64 m.last_executed_op) log)) [
    | inl f ↦ rw (h, f, run_log) l
    | inr (e, f) ↦
        rw (h, f, run_log)
          (run_log-commit rounds log commit (run_entry (inc64 m.last_executed_op) e m)
            (omega (arith, run_entry-last (inc64 m.last_executed_op) m e, ltb→lt _ _ h)))
  ]
]

found_below :
    (log : Log) (op k : ℕ) (e : LogEntry)
    → ((k : ℕ) → op < k → find k log ≡ none)
    → find k log ≡ some e
    → k ≤ op
found_below log op k e o f = elim (dec_lt op k) [
  | yes y ↦ absurd (cc (o k y, f))
  | no y ↦ omega (arith, y)
]

-- The loop stays in the log, which ends at `op`.
pub run_log-Executed :
    (rounds : ℕ) (log : Log) (op commit : ℕ) (m : Machine)
    → op < 2 ^ 64 - 1
    → ((k : ℕ) → op < k → find k log ≡ none)
    → m.last_executed_op ≤ op
    → Executed log m
    → ((run_log rounds log commit m).last_executed_op ≤ op)
      × Executed log (run_log rounds log commit m)
unfolding run_log
run_log-Executed zero log op commit m b o l x = (l, x)
run_log-Executed (suc rounds) log op commit m b o l x =
    elim (Bool-cases (ltb m.last_executed_op commit)) [
      | inr h ↦ rw (h, run_log) (l, x)
      | inl h ↦ elim (Option-cases (find (inc64 m.last_executed_op) log)) [
        | inl f ↦ rw (h, f, run_log) (l, x)
        | inr (e, f) ↦
            let last = m.last_executed_op in
            let eq : inc64 last ≡ suc last = omega (arith, b, l) in
            let g : find (suc last) log ≡ some e = ap (λ k. find k log) (sym eq) ∙ f in
            rw (h, f, run_log)
              (run_log-Executed rounds log op commit (run_entry (inc64 last) e m) b o
                (omega
                  (arith, run_entry-last (inc64 last) m e, eq, found_below log op (suc last) e o g))
                (subst (λ k. Executed log (run_entry k e m)) (sym eq)
                  (run_entry-Executed log m e g x)))
      ]
    ]
