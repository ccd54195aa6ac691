-- ===== src/Cluster/Follower.antt =====
-- The handlers of a backup in view 0.
use vsr_kv.Common.{
  ℕ, suc, ◌+◌, ◌%◌, ◌≤◌, ◌<◌, ◌≡◌, refl, sym, ap, subst, ◌∙◌, inl, inr, true, List, arith, ltb,
  ◌==◌, if◌then◌else◌, ltb→lt, Bool-cases, length,
}
use vsr_kv.Common.Map.{find-insert_other, insert, nat_key}
use vsr_kv.Message.{VsrMessage}
use vsr_kv.ReplicaState.{ReplicaState, inc64}
use vsr_kv.Replica.{Replica, InboundMessage, Env, with_state}
use vsr_kv.Replica.Normal.{
  check_can_process_prepare, handle_prepare, log_prepare, prepare_ok_message, adopt_commit,
  handle_commit,
}
use vsr_kv.Utilities.{u128_key}
use vsr_kv.Replica.Execute.Machine.{machine_of}
use vsr_kv.Replica.Normal.{pending_entry}
use vsr_kv.Cluster.Replay.{Agree}
use vsr_kv.Cluster.Executed.{Quiet, insert-Quiet}
use vsr_kv.Cluster.Runs.{Carries-idle, Runs-Carries}
use vsr_kv.Cluster.{last_u64}
use vsr_kv.Cluster.History.{Core, core, bare, prepared_entry, PrepareHolds, Valid}
use vsr_kv.Cluster.Kept.{Kept, Kept-Change, Kept-core, Kept-emit, Kept-execute}
use vsr_kv.Cluster.Backup.{beside, Moves, logged, logged-Moves, followed-Moves}

-- A Prepare is taken for the next operation only.
pub prepare_is_next :
    (m : VsrMessage) (s : ReplicaState)
    → check_can_process_prepare m s ≡ true
    → m.header.op ≡ inc64 s.op
unfolding check_can_process_prepare
prepare_is_next m s h = ground arith

log_prepare-op : (m : VsrMessage) (s : ReplicaState) → (log_prepare m s).op ≡ inc64 s.op
unfolding log_prepare
log_prepare-op m s = refl

log_prepare-core :
    (m : VsrMessage) (s : ReplicaState)
    → s.view ≡ 0
    → inc64 s.op ≡ suc s.op
    → logged m (core s) ≡ core (log_prepare m s)
unfolding log_prepare
log_prepare-core m s v eq =
    ap (λ view. entered view (suc s.op)) (sym v) ∙ ap (λ op. entered s.view op) (sym eq)
  where
    entered : ℕ → ℕ → Core
    entered view op = record (core s) {
      op = op;
      log = insert op (record (prepared_entry m) { view = view }) s.log;
    }

log_prepare-commit : (m : VsrMessage) (s : ReplicaState) → (log_prepare m s).commit ≡ s.commit
unfolding log_prepare
log_prepare-commit m s = refl

log_prepare-Quiet :
    (m : VsrMessage) (r : Replica)
    → Quiet (machine_of r) (machine_of (with_state (log_prepare m r.state) r))
unfolding log_prepare
log_prepare-Quiet m r =
    insert-Quiet m.header.client (pending_entry m.header.request) (machine_of r) refl

log_prepare-Agree :
    (m : VsrMessage) (s : ReplicaState)
    → inc64 s.op ≡ suc s.op
    → Agree s.op s.log (log_prepare m s).log
unfolding log_prepare
log_prepare-Agree m s eq k p l =
    ap bare (find-insert_other (inc64 s.op) k _ s.log (λ e. absurd (omega (arith, e, eq, l))))

own-le : (i j a b : ℕ) → j ≡ i → a ≤ (if j == i then a else b)
own-le i j a b e = ground (arith, e)

-- The acknowledgement of a replica names it, and an operation that it holds.
prepare_ok-Valid :
    (n i : ℕ) (p : Core) (held : ℕ → ℕ) (s : ReplicaState)
    → i < n
    → n ≤ 256
    → s.id ≡ i
    → s.view ≡ 0
    → Valid n (beside i p held (core s)) (prepare_ok_message s.op s)
prepare_ok-Valid n i p held s l b e v =
    (v, (omega (arith, e), own-le i (s.id % 256) s.op (held (s.id % 256)) (omega (arith, e))))

module _ (n i : ℕ) (p : Core) (held : ℕ → ℕ) (start : Core) (q : List InboundMessage) where
  abbrev K : Replica → Type 0
  K r = Kept n i (beside i p held) start r q

  adopt_commit-Kept :
      (commit : ℕ) (r : Replica) → commit ≤ p.commit → K r → K (adopt_commit commit r)
  unfolding adopt_commit
  adopt_commit-Kept commit r l k = elim (Bool-cases (ltb r.state.commit commit)) [
    | inr e ↦ rw (e, adopt_commit) k
    | inl e ↦
        let s : Replica = with_state (record (r.state) { commit = commit }) r in
        rw (e, adopt_commit)
          (Kept-execute n i _ start q s (
            Kept-Change n i _ start q r s
              (followed-Moves n i p held (core r.state) k.sound k.follows commit l)
              (Carries-idle r s refl (omega arith) (omega (arith, ltb→lt _ _ e)) (λ j b l. refl))
              refl k.room k))
  ]

  pub handle_commit-Kept :
      (env : Env) (m : InboundMessage) (r : Replica)
      → m.message.header.commit ≤ p.commit
      → K r
      → K (handle_commit env m r)
  unfolding handle_commit
  handle_commit-Kept env m r l k = adopt_commit-Kept m.message.header.commit _ l (
      Kept-core n i _ start q r (record r { last_primary_contact = env.now }) refl
        (Runs-Carries r _ (Carries-idle r _ refl (omega arith) (omega arith) (λ j b l. refl))
          k.runs)
        k.sent k)

  pub handle_prepare-Kept :
      (env : Env) (m : InboundMessage) (r : Replica)
      → i < n
      → n ≤ 256
      → suc r.state.op + length q < last_u64
      → check_can_process_prepare m.message r.state ≡ true
      → PrepareHolds (beside i p held (core r.state)) m.message
      → K r
      → K (handle_prepare env m r)
  unfolding handle_prepare
  handle_prepare-Kept env m r a b l c v k = adopt_commit-Kept m.message.header.commit _ v.commit (
      Kept-emit n i _ start q r1 _
        (prepare_ok-Valid n i p held s a b after.follows.id after.follows.view) after)
    where
      s : ReplicaState
      s = log_prepare m.message r.state

      r1 : Replica
      r1 = record r { state = s; last_primary_contact = env.now }

      eq : inc64 r.state.op ≡ suc r.state.op
      eq = omega (arith, l)

      next : s.op ≡ suc r.state.op
      next = log_prepare-op m.message r.state ∙ eq

      after : K r1
      after =
          Kept-Change n i _ start q r r1
            (subst (λ c. Moves n i p held (core r.state) c)
              (log_prepare-core m.message r.state k.follows.view eq)
              (logged-Moves n i p held (core r.state) k.sound k.follows m.message v
                (prepare_is_next m.message r.state c ∙ eq)))
            (record {
              quiet = log_prepare-Quiet m.message r;
              op = omega (arith, next);
              commit = omega (arith, log_prepare-commit m.message r.state);
              log = log_prepare-Agree m.message r.state eq;
            })
            refl (omega (arith, next)) k
