-- ===== src/Replica/Normal/Replication.antt =====
-- A request at the primary and its Prepare at a backup leave the same log.
use vsr_kv.Common.{
  ℕ, ◌≡◌, refl, sym, ap, ◌∙◌, inl, inr, true, false, Option, List, [], ◌∷◌, ◌++◌, arith, ltb,
  Bool-cases,
}
use vsr_kv.Common.Map.{insert, nat_key}
use vsr_kv.Message.{VsrMessage}
use vsr_kv.Serialization.{LogEntry, Log}
use vsr_kv.Serialization.Entries.{strip}
use vsr_kv.Serialization.RoundTrip.{strip_all}
use vsr_kv.ReplicaState.{ReplicaState, ReplicaStatus, inc64, is_primary}
use vsr_kv.Replica.{Replica, InboundMessage, Env, Output, with_state, emit}
use vsr_kv.Replica.Execute.Machine.{execute_commited_ops-Frame}
use vsr_kv.Replica.Normal.{
  request_entry, prepare_message, log_request, log_prepare, handle_new_request,
  check_can_process_prepare, adopt_commit, handle_prepare, prepare_ok_message,
}

-- Two replicas in one view with the same operations; the acknowledgements are the primary's own.
pub record InSync (p b : ReplicaState) : Type 0 where
  pub view : b.view ≡ p.view
  pub op : b.op ≡ p.op
  pub log : strip_all b.log ≡ strip_all p.log

pub strip_all-insert :
    (k : ℕ) (e : LogEntry) (log : Log)
    → strip_all (insert k e log) ≡ insert k (strip (k, e)).1 (strip_all log)
unfolding insert
strip_all-insert k e [] = refl
strip_all-insert k e ((j, x) ∷ log) = ground (arith, strip_all-insert k e log)

abbrev entry_of : VsrMessage → ℕ → List ℕ → LogEntry
entry_of m view acks = record {
  view = view;
  op_type = m.header.operation;
  client_id = m.header.client;
  request_num = m.header.request;
  payload = m.payload;
  prepare_ok_acks = acks;
}

log_prepare-InSync :
    (m : VsrMessage) (p b : ReplicaState)
    → InSync p b
    → InSync (log_request m p) (log_prepare (prepare_message m (log_request m p)) b)
unfolding log_request request_entry log_prepare prepare_message
log_prepare-InSync m p b s = record {
  view = s.view;
  op = ap inc64 s.op;
  log =
      strip_all-insert (inc64 b.op) (entry_of m b.view []) b.log
      ∙ (λ i. insert (inc64 (s.op i)) (entry_of m (s.view i) []) (s.log i))
      ∙ sym (strip_all-insert (inc64 p.op) (entry_of m p.view (p.id ∷ [])) p.log);
}

adopt_commit-Frame :
    (c : ℕ) (r : Replica)
    → (((adopt_commit c r).state.view ≡ r.state.view)
        × ((adopt_commit c r).state.op ≡ r.state.op)
        × ((adopt_commit c r).state.log ≡ r.state.log)
        × ((adopt_commit c r).state.status ≡ r.state.status))
unfolding adopt_commit
adopt_commit-Frame c r = elim (Bool-cases (ltb r.state.commit c)) [
  | inl t ↦
      let f = execute_commited_ops-Frame (with_state (record (r.state) { commit = c }) r) in
      rw (t, adopt_commit) (f.view, f.op, f.log, f.status)
  | inr t ↦ rw (t, adopt_commit) (refl, refl, refl, refl)
]

may_prepare :
    (m : VsrMessage) (p b : ReplicaState)
    → InSync p b
    → b.status ≡ ReplicaStatus.normal
    → is_primary b ≡ false
    → check_can_process_prepare (prepare_message m (log_request m p)) b ≡ true
unfolding check_can_process_prepare prepare_message log_request
may_prepare m p b s n np = ground (arith, s.view, s.op)

handle_prepare-Frame :
    (env : Env) (inbound : InboundMessage) (b : Replica)
    → ((handle_prepare env inbound b).state.view ≡ b.state.view)
      × ((handle_prepare env inbound b).state.op ≡ (log_prepare inbound.message b.state).op)
      × ((handle_prepare env inbound b).state.log ≡ (log_prepare inbound.message b.state).log)
unfolding handle_prepare
handle_prepare-Frame env inbound b =
    let s = log_prepare inbound.message b.state in
    let f = adopt_commit-Frame inbound.message.header.commit (
      emit (Output.send_message inbound.connection (prepare_ok_message s.op s))
        (record b { state = s; last_primary_contact = env.now })) in
    (f.0 ∙ unfold log_prepare in refl, f.1, f.2)

-- The primary logs a new request and broadcasts a Prepare. A backup that is in step with the
-- primary, in normal operation, may process that message, and is in step again afterwards,
-- whatever it executes meanwhile.
pub handle_prepare-InSync :
    (env : Env) (inbound : InboundMessage) (connection : Option ℕ) (p b : Replica)
    → InSync p.state b.state
    → b.state.status ≡ ReplicaStatus.normal
    → is_primary b.state ≡ false
    → let msg = prepare_message inbound.message (log_request inbound.message p.state) in
      ((handle_new_request inbound p).sent ≡ p.sent ++ (Output.broadcast_to_peers msg ∷ []))
      × (check_can_process_prepare msg b.state ≡ true)
      × InSync
          (handle_new_request inbound p).state
          (handle_prepare env (record { connection = connection; message = msg }) b).state
unfolding handle_new_request
handle_prepare-InSync env inbound connection p b s n np =
    let msg = prepare_message inbound.message (log_request inbound.message p.state) in
    let f = handle_prepare-Frame env (record { connection = connection; message = msg }) b in
    let t = log_prepare-InSync inbound.message p.state b.state s in
    (
      refl,
      may_prepare inbound.message p.state b.state s n np,
      record {
        view = f.0 ∙ s.view ∙ unfold log_request in refl;
        op = f.1 ∙ t.op;
        log = ap strip_all f.2 ∙ t.log;
      },
    )
