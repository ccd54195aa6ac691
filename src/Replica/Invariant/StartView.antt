-- ===== src/Replica/Invariant/StartView.antt =====
-- Handling a StartView message keeps the invariant.
use vsr_kv.Message.Ranges.{InRange}
use vsr_kv.Common.{
  ℕ, zero, suc, ◌^◌, ◌<◌, inl, inr, [], ◌∷◌, foldl, arith, ltb, Bool-cases, Option-cases, All,
}
use vsr_kv.Common.Map.{find, nat_key}
use vsr_kv.Common.Map.Every.{insert-All}
use vsr_kv.Utilities.{u128_key}
use vsr_kv.Message.{VsrMessage}
use vsr_kv.Serialization.{Log, deserialize_start_view}
use vsr_kv.Serialization.Ranges.{LogInRange, LogInRange-nil, deserialize_start_view-InRange}
use vsr_kv.ReplicaState.{inc64}
use vsr_kv.Replica.{Replica, InboundMessage, Env, ClientTable, client_entry}
use vsr_kv.Replica.ViewChange.{note_request, send_prepare_oks, adopt_start_view, handle_start_view}
use vsr_kv.Replica.Invariant.{ResultBytes, Inv, emit-Inv}
use vsr_kv.Replica.Invariant.Execute.{touch_entry-ResultBytes, execute_commited_ops-Inv}
use vsr_kv.Replica.Invariant.Normal.{prepare_ok_message-InRange, entry_result-Bytes}

pub note_request-ResultBytes :
    (log : Log) (table : ClientTable)
    → All ResultBytes table
    → All ResultBytes (foldl note_request table log)
unfolding note_request
note_request-ResultBytes [] table h = h
note_request-ResultBytes ((op_num, entry) ∷ log) table h =
    elim (Bool-cases (ltb (client_entry entry.client_id table).request_number entry.request_num)) [
      | inl q ↦ rw q (
          note_request-ResultBytes log _ (
            insert-All ResultBytes entry.client_id _ table
              (entry_result-Bytes entry.client_id table h) h))
      | inr q ↦
          rw q (note_request-ResultBytes log _ (touch_entry-ResultBytes entry.client_id table h))
    ]

send_prepare_oks-Inv :
    (n op_num : ℕ) (r : Replica) → op_num < 2 ^ 64 → Inv r → Inv (send_prepare_oks n op_num r)
unfolding send_prepare_oks
send_prepare_oks-Inv zero op_num r h v = v
send_prepare_oks-Inv (suc n) op_num r h v = elim (Option-cases (find op_num r.state.log)) [
  | inl e ↦ rw (e, send_prepare_oks) (send_prepare_oks-Inv n (inc64 op_num) r (omega arith) v)
  | inr (entry, e) ↦
      rw (e, send_prepare_oks)
        (send_prepare_oks-Inv n (inc64 op_num) _ (omega arith)
          (emit-Inv _ r (prepare_ok_message-InRange op_num r.state h v.state) v))
]

adopt_start_view-Inv :
    (env : Env) (m : VsrMessage) (log : Log) (r : Replica)
    → InRange m
    → LogInRange log
    → Inv r
    → Inv (adopt_start_view env m log r)
unfolding adopt_start_view
adopt_start_view-Inv env m log r f l v =
    let table = note_request-ResultBytes log r.state.client_table v.state.client_table in
    ground (arith, f.header, table)

pub handle_start_view-Inv :
    (env : Env) (inbound : InboundMessage) (r : Replica)
    → InRange inbound.message
    → Inv r
    → Inv (handle_start_view env inbound r)
unfolding handle_start_view
handle_start_view-Inv env inbound r f v =
    elim (Bool-cases (deserialize_start_view inbound.message.payload []).0) [
      | inr q ↦ rw q v
      | inl q ↦ rw q (
          send_prepare_oks-Inv _ _ _ (omega arith) (
            execute_commited_ops-Inv _ (
              adopt_start_view-Inv env inbound.message _ r f
                (deserialize_start_view-InRange inbound.message.payload [] f.payload LogInRange-nil)
                v)))
    ]
