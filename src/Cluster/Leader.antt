-- ===== src/Cluster/Leader.antt =====
-- The handlers of the primary, replica 0 of view 0.
use vsr_kv.Common.{
  ℕ, suc, ◌+◌, ◌*◌, ◌%◌, ◌≤◌, ◌<◌, ◌≡◌, refl, sym, ap, subst, ◌∙◌, inl, inr, some, List, [], ◌∷◌,
  arith, ltb, ◌==◌, Bool-cases, Option-cases, length,
}
use vsr_kv.Common.Map.{find, insert, nat_key, find-insert_self}
use vsr_kv.Message.{VsrMessage}
use vsr_kv.Serialization.{LogEntry}
use vsr_kv.ReplicaState.{ReplicaState, inc64, is_primary, get_primary_id}
use vsr_kv.Replica.{Replica, InboundMessage, with_state, client_entry, touch_entry}
use vsr_kv.Replica.Normal.{
  handle_ping, handle_request, handle_new_request, log_request, request_entry, prepare_message,
  cached_reply,
}
use vsr_kv.Replica.Commit.{handle_prepare_ok, advance_primary_commit_number, advance_loop}
use vsr_kv.Replica.Commit.Quorum.{advance_loop-Reached}
use vsr_kv.Utilities.{U128, u128_key}
use vsr_kv.Replica.Execute.Machine.{machine_of}
use vsr_kv.Replica.Normal.{pending_entry}
use vsr_kv.Cluster.Executed.{Quiet, insert-Quiet, touch-Quiet}
use vsr_kv.Cluster.Runs.{Carries, Carries-idle, Runs-Carries}
use vsr_kv.Cluster.{last_u64}
use vsr_kv.Cluster.History.{Core, core, bare, History, prepared_entry, PrepareHolds, Valid, Follows}
use vsr_kv.Cluster.Kept.{Kept, Kept-Change, Kept-core, Kept-emit, Kept-execute}
use vsr_kv.Cluster.Primary.{led, Advances, appended-Advances, acked-Advances, committed-Advances}

zero_mod : (k : ℕ) → 0 % (2 * k + 1) ≡ 0
zero_mod k = ground arith

-- In view 0 the primary is replica 0.
pub is_primary_of :
    (i : ℕ) (h : History) (s : ReplicaState) → Follows h i (core s) → is_primary s ≡ (i == 0)
unfolding is_primary get_primary_id
is_primary_of i h s f = rw (f.view, f.id, zero_mod s.fault_tolerance_f) refl

-- The Prepare of a request carries its entry.
request-prepared :
    (m : VsrMessage) (s t : ReplicaState)
    → s.view ≡ 0
    → bare (some (request_entry m s)) ≡ some (prepared_entry (prepare_message m t))
unfolding request_entry prepare_message
request-prepared m s t h = rw h refl

prepare-Holds :
    (held : ℕ → ℕ) (m : VsrMessage) (e : LogEntry) (t : ReplicaState)
    → 0 < t.op
    → find t.op t.log ≡ some e
    → bare (some e) ≡ some (prepared_entry (prepare_message m t))
    → PrepareHolds (led (core t) held) (prepare_message m t)
unfolding prepare_message
prepare-Holds held m e t p f b = record {
  positive = p;
  op = omega arith;
  commit = omega arith;
  entry = ap bare f ∙ b;
}

log_request-find :
    (m : VsrMessage) (s : ReplicaState)
    → find (log_request m s).op (log_request m s).log ≡ some (request_entry m s)
unfolding log_request
log_request-find m s = find-insert_self (inc64 s.op) (request_entry m s) s.log

log_request-op : (m : VsrMessage) (s : ReplicaState) → (log_request m s).op ≡ inc64 s.op
unfolding log_request
log_request-op m s = refl

log_request-core :
    (m : VsrMessage) (s : ReplicaState)
    → inc64 s.op ≡ suc s.op
    → record (core s) { op = suc s.op; log = insert (suc s.op) (request_entry m s) s.log }
      ≡ core (log_request m s)
unfolding log_request
log_request-core m s eq =
    ap (λ op. record (core s) { op = op; log = insert op (request_entry m s) s.log }) (sym eq)

request_entry-acks :
    (m : VsrMessage) (s : ReplicaState) → s.id ≡ 0 → (request_entry m s).prepare_ok_acks ≡ 0 ∷ []
unfolding request_entry
request_entry-acks m s h = ap (λ i. i ∷ []) h

prepare-Valid :
    (n : ℕ) (h : History) (m : VsrMessage) (t : ReplicaState)
    → t.view ≡ 0
    → PrepareHolds h (prepare_message m t)
    → Valid n h (prepare_message m t)
unfolding prepare_message
prepare-Valid n h m t v p = (v, p)

log_request-view : (m : VsrMessage) (s : ReplicaState) → (log_request m s).view ≡ s.view
unfolding log_request
log_request-view m s = refl

log_request-Quiet :
    (m : VsrMessage) (r : Replica)
    → Quiet (machine_of r) (machine_of (with_state (log_request m r.state) r))
unfolding log_request
log_request-Quiet m r =
    insert-Quiet m.header.client (pending_entry m.header.request) (machine_of r) refl

touched :
    (client : U128) (r : Replica)
    → Carries r
        (with_state (record (r.state) { client_table = touch_entry client r.state.client_table }) r)
touched client r = record {
  quiet = touch-Quiet client (machine_of r);
  op = omega arith;
  commit = omega arith;
  log = λ k p l. refl;
}

module _ (n : ℕ) (at : Core → History) (i : ℕ) (start : Core) (q : List InboundMessage) where
  pub handle_ping-Kept :
      (m : InboundMessage) (r : Replica)
      → Kept n i at start r q
      → Kept n i at start (handle_ping m r) q
  unfolding handle_ping
  handle_ping-Kept m r k = Kept-emit n i at start q r _ (k.follows.view, tt) k

module _ (n : ℕ) (p : 0 < n) (held : ℕ → ℕ) (start : Core) (q : List InboundMessage) where
  abbrev K : Replica → Type 0
  K r = Kept n 0 (λ c. led c held) start r q

  handle_new_request-Kept :
      (m : InboundMessage) (r : Replica)
      → suc r.state.op + length q < last_u64
      → K r
      → K (handle_new_request m r)
  unfolding handle_new_request
  handle_new_request-Kept m r l k =
      Kept-emit n 0 _ start q (record logged { state = s }) _
        (prepare-Valid n _ m.message s (log_request-view m.message r.state ∙ k.follows.view) (
          prepare-Holds held m.message e s (omega (arith, next))
            (log_request-find m.message r.state)
            (request-prepared m.message r.state s k.follows.view)))
        (Kept-Change n 0 _ start q r (record logged { state = s }) moved
          (record {
            quiet = log_request-Quiet m.message r;
            op = omega (arith, next);
            commit = moved.grows.commit;
            log = moved.grows.entry;
          })
          refl (omega (arith, next)) k)
    where
      e : LogEntry
      e = request_entry m.message r.state

      s : ReplicaState
      s = log_request m.message r.state

      logged : Replica
      logged = record r {
        client_connections = insert m.message.header.client m.connection r.client_connections;
      }

      eq : inc64 r.state.op ≡ suc r.state.op
      eq = omega (arith, l)

      next : s.op ≡ suc r.state.op
      next = log_request-op m.message r.state ∙ eq

      moved : Advances n held (core r.state) (core s)
      moved =
          subst (λ c. Advances n held (core r.state) c) (log_request-core m.message r.state eq)
            (appended-Advances n held (core r.state) k.sound k.follows e p
              (request_entry-acks m.message r.state k.follows.id) (omega (arith, l)))

  pub handle_request-Kept :
      (m : InboundMessage) (r : Replica)
      → suc r.state.op + length q < last_u64
      → K r
      → K (handle_request m r)
  unfolding handle_request cached_reply
  handle_request-Kept m r l k =
      let request_msg = m.message in
      let client = client_entry request_msg.header.client r.state.client_table in
      let r1 : Replica = record r {
        state = record (r.state) {
          client_table = touch_entry request_msg.header.client r.state.client_table;
        };
      } in
      let k1 : K r1 =
        Kept-core n 0 _ start q r r1 refl
          (Runs-Carries r r1 (touched request_msg.header.client r) k.runs) k.sent k in
      elim (Bool-cases (ltb request_msg.header.request client.request_number)) [
        | inl a ↦ rw (a, handle_request) k1
        | inr a ↦ elim (Bool-cases (client.request_number == request_msg.header.request)) [
          | inl b ↦ rw (a, b, handle_request) (Kept-emit n 0 _ start q r1 _ (refl, tt) k1)
          | inr b ↦ rw (a, b, handle_request) (handle_new_request-Kept m r1 l k1)
        ]
      ]

  advance-Kept : (r : Replica) → K r → K (advance_primary_commit_number r)
  unfolding advance_primary_commit_number
  advance-Kept r k =
      let e = is_primary_of 0 _ r.state k.follows in
      let s = r.state in
      let d = advance_loop (length s.log) s.fault_tolerance_f s.log s.commit in
      let r1 : Replica = with_state (record s { commit = d }) r in
      let moved = committed-Advances n held (core s) k.sound k.follows d (
        advance_loop-Reached s.fault_tolerance_f s.log s.commit k.sound.keys
          (omega (arith, k.sound.commit, k.sound.fits))) in
      rw (e, advance_primary_commit_number)
        (Kept-execute n 0 _ start q r1 (
          Kept-Change n 0 _ start q r r1 moved
            (Carries-idle r r1 refl (omega arith) moved.grows.commit (λ i b l. refl)) refl k.room
            k))

  pub handle_prepare_ok-Kept :
      (m : InboundMessage) (r : Replica)
      → m.message.header.replica < n
      → m.message.header.op ≤ (led (core r.state) held).held m.message.header.replica
      → K r
      → K (handle_prepare_ok m r)
  unfolding handle_prepare_ok
  handle_prepare_ok-Kept m r a b k = elim (Option-cases (find m.message.header.op r.state.log)) [
    | inl e ↦ rw (e, handle_prepare_ok) k
    | inr (entry, e) ↦
        let moved =
          acked-Advances n held (core r.state) k.sound k.follows m.message.header.op
            m.message.header.replica entry e a b in
        rw (e, handle_prepare_ok)
          (advance-Kept _ (
            Kept-Change n 0 _ start q r _ moved
              (Carries-idle r _ refl (omega arith) (omega arith) moved.grows.entry) refl k.room k))
  ]
