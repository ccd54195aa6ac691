-- ===== src/Replica/Execute/Batches.antt =====
-- How far execution goes, and that it may be done in several steps.
use vsr_kv.Common.{
  dec_lt, ℕ, zero, suc, ◌-◌, ◌^◌, ◌≤◌, ◌<◌, max, ◌≡◌, refl, sym, ap, subst, ◌∙◌, ◌≢◌, ◌⊎◌, inl, inr,
  none, some, arith, ℕ_discrete, ltb, ltb→lt, Bool-cases, Option-cases,
}
use vsr_kv.Common.Map.{find, nat_key}
use vsr_kv.Serialization.{LogEntry, Log}
use vsr_kv.ReplicaState.{inc64}
use vsr_kv.Replica.{Replica, with_state}
use vsr_kv.Replica.Execute.{execute_commited_ops}
use vsr_kv.Replica.Execute.Machine.{
  Machine, machine_of, run_entry, run_log, execute_commited_ops-machine, execute_commited_ops-Frame,
}

-- From `m` the log has been executed up to `m'`: every operation between is in the log, and the
-- next one is not to be executed, or is missing.
pub record CaughtUp (log : Log) (commit : ℕ) (m m' : Machine) : Type 0 where
  pub grows : m.last_executed_op ≤ m'.last_executed_op
  pub within : m'.last_executed_op ≤ max commit m.last_executed_op
  pub present : (k : ℕ) → (k ≤ m.last_executed_op) ⊎ (m'.last_executed_op < k) ⊎ (find k log ≢ none)
  pub stops : (commit ≤ m'.last_executed_op) ⊎ (find (suc m'.last_executed_op) log ≡ none)

run_entry-last : (op : ℕ) (e : LogEntry) (m : Machine) → (run_entry op e m).last_executed_op ≡ op
unfolding run_entry
run_entry-last op e m = ground arith

inc64_below : (n c : ℕ) → n < c → c < 2 ^ 64 → inc64 n ≡ suc n
inc64_below n c h k = omega arith

CaughtUp-here :
    (log : Log) (commit : ℕ) (m : Machine)
    → (commit ≤ m.last_executed_op) ⊎ (find (suc m.last_executed_op) log ≡ none)
    → CaughtUp log commit m m
CaughtUp-here log commit m h = record {
  grows = omega arith;
  within = omega arith;
  present =
      λ k. elim (dec_lt m.last_executed_op k) [ yes h ↦ inr (inl h) | no h ↦ inl (omega arith) ];
  stops = h;
}

CaughtUp-next :
    (log : Log) (commit : ℕ) (e : LogEntry) (m m1 m2 : Machine)
    → m.last_executed_op < commit
    → m1.last_executed_op ≡ suc m.last_executed_op
    → find (suc m.last_executed_op) log ≡ some e
    → CaughtUp log commit m1 m2
    → CaughtUp log commit m m2
CaughtUp-next log commit e m m1 m2 h last found c = record {
  grows = omega (arith, c.grows);
  within = omega (arith, c.within);
  present = λ k. elim (ℕ_discrete k (suc m.last_executed_op)) [
    | yes eq ↦ inr (inr (λ missing. let missing' = rw eq at missing in cc))
    | no ne ↦ elim (c.present k) [ inl h ↦ inl (omega arith) | inr h ↦ inr h ]
  ];
  stops = c.stops;
}

-- One round, with the increment resolved.
run_log_cases :
    (P : Machine → Type 0) (n : ℕ) (log : Log) (commit : ℕ) (m : Machine)
    → commit < 2 ^ 64
    → (commit ≤ m.last_executed_op → P m)
    → (m.last_executed_op < commit → find (suc m.last_executed_op) log ≡ none → P m)
    → ((e : LogEntry)
        → m.last_executed_op < commit
        → find (suc m.last_executed_op) log ≡ some e
        → P (run_log n log commit (run_entry (suc m.last_executed_op) e m)))
    → P (run_log (suc n) log commit m)
unfolding run_log
run_log_cases P n log commit m fits up gap go = elim (Bool-cases (ltb m.last_executed_op commit)) [
  | inr t ↦ rw (t, run_log) (up (ground arith))
  | inl t ↦
      let lt = ltb→lt _ _ t in
      let next = inc64_below m.last_executed_op commit lt fits in
      elim (Option-cases (find (inc64 m.last_executed_op) log)) [
        | inl h ↦ rw (t, h, run_log) (gap lt (rw next at h))
        | inr (e, h) ↦
            rw (t, h, run_log)
              (subst (λ k. P (run_log n log commit (run_entry k e m))) (sym next)
                (go e lt (rw next at h)))
      ]
]

run_log_go :
    (n : ℕ) (log : Log) (commit : ℕ) (m : Machine) (e : LogEntry)
    → commit < 2 ^ 64
    → m.last_executed_op < commit
    → find (suc m.last_executed_op) log ≡ some e
    → run_log (suc n) log commit m ≡ run_log n log commit (run_entry (suc m.last_executed_op) e m)
run_log_go n log commit m e fits lt found =
    run_log_cases (λ x. x ≡ run_log n log commit (run_entry (suc m.last_executed_op) e m)) n log
      commit m fits (λ h. absurd (omega arith)) (λ h gap. cc) (λ e' h found'. cc)

run_log-CaughtUp :
    (n : ℕ) (log : Log) (commit : ℕ) (m : Machine)
    → commit < 2 ^ 64
    → commit - m.last_executed_op ≤ n
    → CaughtUp log commit m (run_log n log commit m)
run_log-CaughtUp zero log commit m fits enough =
    unfold run_log in CaughtUp-here log commit m (inl (omega arith))
run_log-CaughtUp (suc n) log commit m fits enough =
    run_log_cases (CaughtUp log commit m) n log commit m fits
      (λ h. CaughtUp-here log commit m (inl h)) (λ h gap. CaughtUp-here log commit m (inr gap))
      λ e h found.
        let last = run_entry-last (suc m.last_executed_op) e m in
        CaughtUp-next log commit e m (run_entry (suc m.last_executed_op) e m) _ h last found (
          run_log-CaughtUp n log commit (run_entry (suc m.last_executed_op) e m) fits
            (omega (arith, last)))

-- `execute_commited_ops` ends, for commit numbers that a `uint64_t` holds, with everything executed
-- up to the commit number or up to the first operation that is not in the log; it passes no gap
-- and never goes beyond the commit number.
pub execute_commited_ops-CaughtUp :
    (r : Replica)
    → r.state.commit < 2 ^ 64
    → CaughtUp r.state.log r.state.commit (machine_of r) (machine_of (execute_commited_ops r))
execute_commited_ops-CaughtUp r fits =
    rw (execute_commited_ops-machine r)
      (run_log-CaughtUp _ r.state.log r.state.commit (machine_of r) fits (omega arith))

-- To execute up to `c` and then up to `d` is to execute up to `d`.
run_log_batches :
    (n : ℕ) (log : Log) (c d : ℕ) (m : Machine)
    → c ≤ d
    → d < 2 ^ 64
    → c - m.last_executed_op ≡ n
    → run_log (d - (run_log n log c m).last_executed_op) log d (run_log n log c m)
      ≡ run_log (d - m.last_executed_op) log d m
run_log_batches zero log c d m le fits e = unfold run_log in refl
run_log_batches (suc n) log c d m le fits e =
    run_log_cases
      (λ x. run_log (d - x.last_executed_op) log d x ≡ run_log (d - m.last_executed_op) log d m) n
      log c m (omega arith) (λ h. refl) (λ h gap. refl)
      λ entry h found.
        let op = suc m.last_executed_op in
        let m1 = run_entry op entry m in
        let last = run_entry-last op entry m in
        run_log_batches n log c d m1 le fits (omega (arith, last))
        ∙ sym (run_log_go (d - m1.last_executed_op) log d m entry fits (omega arith) found)
        ∙ ap (λ (k : ℕ). run_log k log d m) (omega (arith, last))

abbrev pub with_commit : ℕ → Replica → Replica
with_commit c r = with_state (record (r.state) { commit = c }) r

-- A replica that executes up to a commit number and later up to a higher one ends with the same
-- state machine and client table as one that executes up to the higher one at once.
pub execute_in_batches :
    (r : Replica) (c d : ℕ)
    → c ≤ d
    → d < 2 ^ 64
    → machine_of (execute_commited_ops (with_commit d (execute_commited_ops (with_commit c r))))
      ≡ machine_of (execute_commited_ops (with_commit d r))
execute_in_batches r c d le fits =
    let r1 = execute_commited_ops (with_commit c r) in
    execute_commited_ops-machine (with_commit d r1)
    ∙ ap (λ (log : Log). run_log (d - r1.state.last_executed_op) log d (machine_of r1))
        (execute_commited_ops-Frame (with_commit c r)).log
    ∙ ap (λ (x : Machine). run_log (d - x.last_executed_op) r.state.log d x)
        (execute_commited_ops-machine (with_commit c r))
    ∙ run_log_batches (c - r.state.last_executed_op) r.state.log c d (machine_of r) le fits refl
    ∙ sym (execute_commited_ops-machine (with_commit d r))
