-- ===== src/Cluster/Runs.antt =====
-- The execution of one replica, from one of its states to the next.
use vsr_kv.Common.{ℕ, ◌-◌, ◌^◌, ◌≤◌, ◌<◌, ◌≡◌, sym, ap, subst, none, arith}
use vsr_kv.Common.Map.{find, nat_key}
use vsr_kv.Replica.{Replica}
use vsr_kv.Replica.Execute.{execute_commited_ops}
use vsr_kv.Replica.Execute.Machine.{
  machine_of, execute_commited_ops-Frame, execute_commited_ops-machine,
}
use vsr_kv.Cluster.Replay.{Agree}
use vsr_kv.Cluster.Executing.{run_log-Executed, run_log-commit}
use vsr_kv.Cluster.Executed.{Executed, Executed-Agree, Quiet, Quiet-refl, Executed-Quiet}

-- A replica has executed committed operations of its log only.
pub record Runs (r : Replica) : Type 0 where
  pub within : r.state.last_executed_op ≤ r.state.op
  pub committed : r.state.last_executed_op ≤ r.state.commit
  pub executed : Executed r.state.log (machine_of r)

-- A step that executes nothing and keeps the entries of the log.
pub record Carries (r s : Replica) : Type 0 where
  pub quiet : Quiet (machine_of r) (machine_of s)
  pub op : r.state.op ≤ s.state.op
  pub commit : r.state.commit ≤ s.state.commit
  pub log : Agree r.state.op r.state.log s.state.log

-- Neither the client table nor what has been executed changes.
pub Carries-idle :
    (r s : Replica)
    → machine_of s ≡ machine_of r
    → r.state.op ≤ s.state.op
    → r.state.commit ≤ s.state.commit
    → Agree r.state.op r.state.log s.state.log
    → Carries r s
Carries-idle r s e l c a = record {
  quiet = subst (Quiet (machine_of r)) (sym e) (Quiet-refl (machine_of r));
  op = l;
  commit = c;
  log = a;
}

pub Runs-Carries : (r s : Replica) → Carries r s → Runs r → Runs s
Runs-Carries r s c v = record {
  within = omega (arith, c.op, c.quiet.last, v.within);
  committed = omega (arith, c.commit, c.quiet.last, v.committed);
  executed =
      Executed-Agree r.state.log s.state.log (machine_of s)
        (λ k p l. c.log k p (omega (arith, c.quiet.last, v.within, l)))
        (Executed-Quiet r.state.log (machine_of r) (machine_of s) c.quiet v.executed);
}

pub execute_commited_ops-Runs :
    (r : Replica)
    → r.state.op < 2 ^ 64 - 1
    → ((k : ℕ) → r.state.op < k → find k r.state.log ≡ none)
    → Runs r
    → Runs (execute_commited_ops r)
execute_commited_ops-Runs r b o v =
    let f = execute_commited_ops-Frame r in
    let e = execute_commited_ops-machine r in
    let (l, x) =
      run_log-Executed (r.state.commit - r.state.last_executed_op) r.state.log r.state.op
        r.state.commit (machine_of r) b o v.within v.executed in
    record {
      within = omega (arith, ap (λ m. m.last_executed_op) e, l, f.op);
      committed = omega (
        arith,
        ap (λ m. m.last_executed_op) e,
        run_log-commit (r.state.commit - r.state.last_executed_op) r.state.log r.state.commit
            (machine_of r) v.committed,
        f.commit,
      );
      executed =
          subst (λ log. Executed log (machine_of (execute_commited_ops r))) (sym f.log)
            (subst (Executed r.state.log) (sym e) x);
    }
