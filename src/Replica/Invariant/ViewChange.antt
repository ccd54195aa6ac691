-- ===== src/Replica/Invariant/ViewChange.antt =====
-- The view change keeps the invariant.
use vsr_kv.Message.Ranges.{InRange}
use vsr_kv.Common.{
  ℕ, ◌+◌, ◌^◌, ◌<◌, inl, inr, List, [], ◌∷◌, ◌++◌, foldl, arith, ltb, if◌then◌else◌, Bool-cases,
  length, All, All-append,
}
use vsr_kv.Common.IntSet
use vsr_kv.Common.Map.{nat_key}
use vsr_kv.Utilities.{u128_key}
use vsr_kv.Message.{VsrMessage}
use vsr_kv.Serialization.Ranges.{LogInRange-nil, VotePayload, deserialize_do_view_change-InRange}
use vsr_kv.Serialization.Written.{serialize_start_view-Bytes, serialize_do_view_change-Bytes}
use vsr_kv.ReplicaState.{
  ReplicaState, ReplicaStatus, is_id, enter_new_view, get_primary_id_for_view,
}
use vsr_kv.Replica.{Replica, InboundMessage, Env, with_state}
use vsr_kv.Replica.ViewChange.{
  initiate_view_change, check_primary_liveness, Selection, fresh_payload, first_selection, select,
  select_all, start_view_message, become_primary, handle_do_view_change, do_view_change_message,
  send_do_view_change, handle_start_view_change,
}
use vsr_kv.Replica.Invariant.{StateInv, Inv, emit-Inv, with_state-Inv}
use vsr_kv.Replica.Invariant.Execute.{execute_commited_ops-Inv}

-- The member that holds an arbitrary value holds one of its type.
abbrev pub EnvFits : Env → Type 0
EnvFits env = env.uninitialised < 2 ^ 32

pub initiate_view_change-Inv : (r : Replica) → Inv r → Inv (initiate_view_change r)
unfolding initiate_view_change enter_new_view
initiate_view_change-Inv r v =
    emit-Inv _ _ (record { header = ground arith; payload = tt }) (ground arith)

pub check_primary_liveness-Inv :
    (env : Env) (r : Replica) → Inv r → Inv (check_primary_liveness env r)
unfolding check_primary_liveness
check_primary_liveness-Inv env r v = ground (arith, initiate_view_change-Inv r v)

record SelectionInv (best : Selection) : Type 0 where
  payload : VotePayload best.best_payload
  op : best.best_op < 2 ^ 64
  commit : best.max_commit < 2 ^ 64

fresh-VotePayload : (env : Env) → EnvFits env → VotePayload (fresh_payload env)
fresh-VotePayload env h = record { last_normal_view = h; log = LogInRange-nil }

first_selection-Inv :
    (env : Env) (commit : ℕ) (m : VsrMessage)
    → EnvFits env
    → commit < 2 ^ 64
    → InRange m
    → SelectionInv (first_selection env commit m)
unfolding first_selection
first_selection-Inv env commit m e h f = record {
  payload =
      deserialize_do_view_change-InRange m.payload (fresh_payload env) f.payload
        (fresh-VotePayload env e);
  op = f.header.op;
  commit = omega (arith, f.header.commit);
}

select-Inv :
    (env : Env) (best : Selection) (m : VsrMessage)
    → EnvFits env
    → InRange m
    → SelectionInv best
    → SelectionInv (select env best m)
unfolding select
select-Inv env best m e f v =
    let p =
      deserialize_do_view_change-InRange m.payload (fresh_payload env) f.payload
        (fresh-VotePayload env e) in
    ground (arith, f.header, p)

select_all-Inv :
    (env : Env) (best : Selection) (ms : List VsrMessage)
    → EnvFits env
    → All InRange ms
    → SelectionInv best
    → SelectionInv (foldl (select env) best ms)
select_all-Inv env best [] e f v = v
select_all-Inv env best (m ∷ ms) e f v =
    select_all-Inv env (select env best m) ms e f.1 (select-Inv env best m e f.0 v)

start_view_message-InRange : (s : ReplicaState) → StateInv s → InRange (start_view_message s)
unfolding start_view_message
start_view_message-InRange s v = record {
  header = ground arith;
  payload = serialize_start_view-Bytes s.log v.log;
}

become_primary-Inv :
    (best : Selection) (r : Replica) → SelectionInv best → Inv r → Inv (become_primary best r)
unfolding become_primary
become_primary-Inv best r b v =
    execute_commited_ops-Inv _
      (emit-Inv _ _ (start_view_message-InRange s chosen) (with_state-Inv s r chosen v))
  where
    s : ReplicaState
    s = record (r.state) {
      do_view_change_received = [];
      log = best.best_payload.log;
      op = best.best_op;
      commit = best.max_commit;
      status = ReplicaStatus.normal;
    }

    chosen : StateInv s
    chosen = ground (arith, v.state, b.payload)

-- The votes with another one.
with_votes-Inv :
    (votes : List VsrMessage) (r : Replica)
    → All InRange votes
    → Inv r
    → Inv (with_state (record (r.state) { do_view_change_received = votes }) r)
with_votes-Inv votes r h v = ground arith

counted-Inv :
    (env : Env) (votes : List VsrMessage) (r : Replica)
    → EnvFits env
    → All InRange votes
    → Inv r
    → Inv (
        let waiting = with_state (record (r.state) { do_view_change_received = votes }) r in
        elim votes [
          | [] ↦ waiting
          | first ∷ rest ↦
              if ltb (length (first ∷ rest)) (r.state.fault_tolerance_f + 1)
              then waiting
              else become_primary (select_all env r.state.commit first rest) r
        ])
unfolding select_all
counted-Inv env [] r e f v = with_votes-Inv [] r tt v
counted-Inv env (first ∷ rest) r e f v =
    elim (Bool-cases (ltb (length (first ∷ rest)) (r.state.fault_tolerance_f + 1))) [
      | inl q ↦ rw q (with_votes-Inv (first ∷ rest) r f v)
      | inr q ↦ rw q (
          become_primary-Inv _ r
            (select_all-Inv env (first_selection env r.state.commit first) rest e f.1
              (first_selection-Inv env r.state.commit first e v.state.commit f.0))
            v)
    ]

pub handle_do_view_change-Inv :
    (env : Env) (inbound : InboundMessage) (r : Replica)
    → EnvFits env
    → InRange inbound.message
    → Inv r
    → Inv (handle_do_view_change env inbound r)
unfolding handle_do_view_change
handle_do_view_change-Inv env inbound r e f v =
    counted-Inv env (r.state.do_view_change_received ++ (inbound.message ∷ [])) r e
      (All-append InRange r.state.do_view_change_received (inbound.message ∷ [])
        v.state.do_view_change_received (f, tt))
      v

do_view_change_message-InRange :
    (s : ReplicaState) → StateInv s → InRange (do_view_change_message s)
unfolding do_view_change_message
do_view_change_message-InRange s v = record {
  header = ground arith;
  payload =
      serialize_do_view_change-Bytes (record { last_normal_view = s.last_normal_view; log = s.log })
        v.log;
}

send_do_view_change-Inv :
    (env : Env) (r : Replica) → EnvFits env → Inv r → Inv (send_do_view_change env r)
unfolding send_do_view_change
send_do_view_change-Inv env r e v =
    let msg = do_view_change_message-InRange r.state v.state in
    elim (Bool-cases (is_id (get_primary_id_for_view r.state r.state.view) r.state.id)) [
      | inl q ↦ rw q (handle_do_view_change-Inv env _ r e msg v)
      | inr q ↦ rw q (emit-Inv _ r msg v)
    ]

pub handle_start_view_change-Inv :
    (env : Env) (inbound : InboundMessage) (r : Replica)
    → EnvFits env
    → Inv r
    → Inv (handle_start_view_change env inbound r)
unfolding handle_start_view_change
handle_start_view_change-Inv env inbound r e v =
    elim (Bool-cases (ltb (length received) (r.state.fault_tolerance_f + 1))) [
      | inl q ↦ rw q (heard received)
      | inr q ↦ rw q (send_do_view_change-Inv env _ e (heard []))
    ]
  where
    received : List ℕ
    received = IntSet.add inbound.message.header.replica r.state.start_view_change_received

    heard :
        (ids : List ℕ) → Inv (with_state (record (r.state) { start_view_change_received = ids }) r)
    heard ids = ground arith
