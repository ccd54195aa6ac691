-- ===== src/Cluster/Executed.antt =====
-- What the execution of a replica has come to, behind the history.
use vsr_kv.Common.{
  ℕ, ◌≤◌, ◌<◌, ◌≡◌, refl, sym, ap, subst, ◌∙◌, inl, inr, true, false, some, arith, Option-cases,
}
use vsr_kv.Common.Map.{find, insert, nat_key, key_cases, find-insert_self, find-insert_other}
use vsr_kv.Utilities.{U128, u128_key}
use vsr_kv.Serialization.{LogEntry, Log, ClientTableEntry, new_client_table_entry}
use vsr_kv.Replica.{touch_entry}
use vsr_kv.Replica.Execute.Machine.{Machine}
use vsr_kv.Cluster.History.{bare}
use vsr_kv.Cluster.Replay.{
  replay, Agree, replay-Agree, NoRepeats, bare-SameRequest, bare_find, NoRepeats-Agree,
}

-- The log has this request under one of its first numbers.
abbrev pub Logged : ℕ → Log → U128 → ℕ → Type 0
Logged b log client request =
    (k : ℕ) × (e : LogEntry) × (0 < k)
    × (k ≤ b)
    × (find k log ≡ some e)
    × (e.client_id ≡ client)
    × (e.request_num ≡ request)

-- A request that the client table marks as executed is one of those that have been passed, and
-- without repetitions the state machine is the one that runs each operation once.
pub record Executed (log : Log) (m : Machine) : Type 0 where
  pub table :
      (client : U128) (entry : ClientTableEntry)
      → find client m.client_table ≡ some entry
      → entry.executed ≡ true
      → Logged m.last_executed_op log client entry.request_number
  pub machine : NoRepeats m.last_executed_op log → m.state_machine ≡ replay m.last_executed_op log

Logged-Agree :
    (b : ℕ) (log log' : Log) (client : U128) (request : ℕ)
    → Agree b log log'
    → Logged b log client request
    → Logged b log' client request
Logged-Agree b log log' client request a (k, e, p, l, x, c, r) =
    let (d, y, s) = bare_find (find k log') e (a k p l ∙ ap bare x) in
    let u = bare-SameRequest d e s in (k, d, p, l, y, u.client ∙ c, u.request ∙ r)

pub Executed-Agree :
    (log log' : Log) (m : Machine)
    → Agree m.last_executed_op log log'
    → Executed log m
    → Executed log' m
Executed-Agree log log' m a x = record {
  table = λ client entry f e.
      Logged-Agree m.last_executed_op log log' client entry.request_number a
        (x.table client entry f e);
  machine = λ n.
      x.machine (NoRepeats-Agree m.last_executed_op log log' a n)
      ∙ sym (replay-Agree m.last_executed_op log log' a);
}

pub Logged-later :
    (b c : ℕ) (log : Log) (client : U128) (request : ℕ)
    → b ≤ c
    → Logged b log client request
    → Logged c log client request
Logged-later b c log client request l (k, e, p, m, x, y, z) =
    (k, e, p, omega (arith, l, m), x, y, z)

-- What changes the client table only by entries that have not been executed.
pub record Quiet (m t : Machine) : Type 0 where
  pub machine : t.state_machine ≡ m.state_machine
  pub last : t.last_executed_op ≡ m.last_executed_op
  pub table :
      (client : U128) (entry : ClientTableEntry)
      → find client t.client_table ≡ some entry
      → entry.executed ≡ true
      → find client m.client_table ≡ some entry

pub Executed-Quiet : (log : Log) (m t : Machine) → Quiet m t → Executed log m → Executed log t
Executed-Quiet log m t q x = record {
  table = λ client entry f e.
      subst (λ b. Logged b log client entry.request_number) (sym q.last)
        (x.table client entry (q.table client entry f e) e);
  machine =
      subst (λ b. NoRepeats b log → t.state_machine ≡ replay b log) (sym q.last)
        (λ n. q.machine ∙ x.machine n);
}

pub Quiet-refl : (m : Machine) → Quiet m m
Quiet-refl m = record { machine = refl; last = refl; table = λ client entry f e. f }

-- An entry that is not marked replaces another.
pub insert-Quiet :
    (client : U128) (entry : ClientTableEntry) (m : Machine)
    → entry.executed ≡ false
    → Quiet m (record m { client_table = insert client entry m.client_table })
insert-Quiet client entry m u = record {
  machine = refl;
  last = refl;
  table = λ other e f x. elim (key_cases other client) [
    | inl s ↦ absurd (
        cc (
          find-insert_self client entry m.client_table,
          ap (λ k. find k (insert client entry m.client_table)) s,
          f,
          u,
          x,
        ))
    | inr s ↦ sym (find-insert_other client other entry m.client_table s) ∙ f
  ];
}

pub touch-Quiet :
    (client : U128) (m : Machine)
    → Quiet m (record m { client_table = touch_entry client m.client_table })
unfolding touch_entry
touch-Quiet client m = elim (Option-cases (find client m.client_table)) [
  | inl e ↦ rw (e, touch_entry) (insert-Quiet client new_client_table_entry m refl)
  | inr (entry, e) ↦ rw (e, touch_entry) (Quiet-refl m)
]
