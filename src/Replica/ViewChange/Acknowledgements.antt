-- ===== src/Replica/ViewChange/Acknowledgements.antt =====
-- What becomes of the acknowledgements in a view change.
use vsr_kv.Common.{
  ℕ, zero, suc, ◌≡◌, sym, ap, subst, ◌∙◌, inl, inr, false, some, List, [], ◌∷◌, foldl, arith,
  Option-cases, All,
}
use vsr_kv.Common.Map.{find, insert, nat_key}
use vsr_kv.Message.{VsrMessage}
use vsr_kv.Wire.Pod.{read_pod}
use vsr_kv.Utilities.{u64, u32}
use vsr_kv.Serialization.{
  LogEntry, Log, read_entry, read_entries, read_log_from_buffer, deserialize_do_view_change,
}
use vsr_kv.Replica.{Replica, Env, Output, with_state, emit}
use vsr_kv.Replica.Execute.Machine.{execute_commited_ops-Frame}
use vsr_kv.Replica.Commit.{has_quorum}
use vsr_kv.Replica.ViewChange.Choice.{select-From}
use vsr_kv.ReplicaState.{ReplicaState, ReplicaStatus}
use vsr_kv.Replica.ViewChange.{
  Selection, fresh_payload, first_selection, select, select_all, become_primary, start_view_message,
}

-- Nobody has acknowledged an operation of the log.
abbrev pub NoAcks : Log → Type 0
NoAcks = All (λ p. p.1.prepare_ok_acks ≡ [])

insert-NoAcks :
    (k : ℕ) (e : LogEntry) (log : Log)
    → e.prepare_ok_acks ≡ []
    → NoAcks log
    → NoAcks (insert k e log)
unfolding insert
insert-NoAcks k e [] h a = (h, tt)
insert-NoAcks k e ((j, x) ∷ log) h a = ground (arith, insert-NoAcks k e log h a.1)

read_entry-NoAcks :
    (ptr : List ℕ) (k : ℕ) (e : LogEntry) (rest : List ℕ)
    → read_entry ptr ≡ some (k, e, rest)
    → e.prepare_ok_acks ≡ []
unfolding read_entry
read_entry-NoAcks ptr k e rest h = ground arith

read_entries-NoAcks :
    (n : ℕ) (ptr : List ℕ) (log : Log) → NoAcks log → NoAcks (read_entries n ptr log).1
unfolding read_entries
read_entries-NoAcks zero ptr log a = a
read_entries-NoAcks (suc n) ptr log a = elim (Option-cases (read_entry ptr)) [
  | inl h ↦ rw (h, read_entries) a
  | inr ((k, e, rest), h) ↦
      rw (h, read_entries)
        (read_entries-NoAcks n rest (insert k e log)
          (insert-NoAcks k e log (read_entry-NoAcks ptr k e rest h) a))
]

read_log-NoAcks : (ptr : List ℕ) (log : Log) → NoAcks log → NoAcks (read_log_from_buffer ptr log).1
unfolding read_log_from_buffer
read_log-NoAcks ptr log a = elim (Option-cases (read_pod u64 ptr)) [
  | inl h ↦ rw (h, read_log_from_buffer) a
  | inr ((n, rest), h) ↦ rw (h, read_log_from_buffer) (read_entries-NoAcks n rest log a)
]

payload-NoAcks :
    (env : Env) (bytes : List ℕ)
    → NoAcks (deserialize_do_view_change bytes (fresh_payload env)).1.log
unfolding deserialize_do_view_change
payload-NoAcks env bytes = elim (Option-cases (read_pod u32 bytes)) [
  | inl h ↦ rw (h, deserialize_do_view_change) tt
  | inr ((v, rest), h) ↦ rw (h, deserialize_do_view_change) (read_log-NoAcks rest [] tt)
]

select-NoAcks :
    (env : Env) (best : Selection) (m : VsrMessage)
    → NoAcks best.best_payload.log
    → NoAcks (select env best m).best_payload.log
select-NoAcks env best m a = elim (select-From env best m) [
  | inl f ↦ subst (λ p. NoAcks p.log) (sym f.payload) (payload-NoAcks env m.payload)
  | inr (p, o) ↦ subst (λ p. NoAcks p.log) (sym p) a
]

foldl-NoAcks :
    (env : Env) (best : Selection) (ms : List VsrMessage)
    → NoAcks best.best_payload.log
    → NoAcks (foldl (select env) best ms).best_payload.log
foldl-NoAcks env best [] a = a
foldl-NoAcks env best (m ∷ ms) a =
    foldl-NoAcks env (select env best m) ms (select-NoAcks env best m a)

select_all-NoAcks :
    (env : Env) (commit : ℕ) (first : VsrMessage) (rest : List VsrMessage)
    → NoAcks (select_all env commit first rest).best_payload.log
unfolding select_all
select_all-NoAcks env commit first rest =
    foldl-NoAcks env (first_selection env commit first) rest
      (unfold first_selection in payload-NoAcks env first.payload)

find-NoAcks :
    (k : ℕ) (e : LogEntry) (log : Log) → NoAcks log → find k log ≡ some e → e.prepare_ok_acks ≡ []
unfolding find
find-NoAcks k e [] a h = cc
find-NoAcks k e ((j, x) ∷ log) a h = ground (arith, find-NoAcks k e log a.1)

-- The new primary before it executes what is committed.
abbrev announced : Selection → Replica → Replica
announced best r =
    let s : ReplicaState = record (r.state) {
      do_view_change_received = [];
      log = best.best_payload.log;
      op = best.best_op;
      commit = best.max_commit;
      status = ReplicaStatus.normal;
    } in
    emit (Output.broadcast_to_peers (start_view_message s)) (with_state s r)

-- Whatever the DoViewChange messages hold, no operation in the log of the new primary has an
-- acknowledgement, not even the primary's own: each waits for f + 1 other replicas.
pub become_primary-unacknowledged :
    (env : Env) (first : VsrMessage) (rest : List VsrMessage) (r : Replica) (k : ℕ) (e : LogEntry)
    → find k (become_primary (select_all env r.state.commit first rest) r).state.log ≡ some e
    → (e.prepare_ok_acks ≡ []) × (has_quorum r.state.fault_tolerance_f e ≡ false)
unfolding become_primary has_quorum
become_primary-unacknowledged env first rest r k e h =
    let best = select_all env r.state.commit first rest in
    let f = execute_commited_ops-Frame (announced best r) in
    let none_yet : e.prepare_ok_acks ≡ [] =
      find-NoAcks k e best.best_payload.log (select_all-NoAcks env r.state.commit first rest)
        (ap (find k) (sym f.log) ∙ h) in
    (none_yet, ground arith)
