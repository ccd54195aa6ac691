-- ===== src/Replica/ViewChange/StartView.antt =====
-- The StartView message of a new primary at a backup.
use vsr_kv.Common.{ℕ, zero, suc, ◌≡◌, refl, ap, ◌∙◌, inl, inr, true, Option, [], ◌∷◌, Option-cases}
use vsr_kv.Common.Map.{find, nat_key}
use vsr_kv.Serialization.{Log, deserialize_start_view}
use vsr_kv.Serialization.Entries.{strip}
use vsr_kv.Serialization.RoundTrip.{strip_all, LogFits, deserialize-serialize_start_view}
use vsr_kv.ReplicaState.{ReplicaState, ReplicaStatus, inc64}
use vsr_kv.Replica.{Replica, InboundMessage, Env}
use vsr_kv.Replica.Execute.{execute_commited_ops}
use vsr_kv.Replica.Execute.Machine.{execute_commited_ops-Frame}
use vsr_kv.Replica.Normal.Replication.{InSync}
use vsr_kv.Replica.ViewChange.{
  start_view_message, adopt_start_view, send_prepare_oks, handle_start_view,
}

send_prepare_oks-state :
    (n op_num : ℕ) (r : Replica) → (send_prepare_oks n op_num r).state ≡ r.state
unfolding send_prepare_oks
send_prepare_oks-state zero op_num r = refl
send_prepare_oks-state (suc n) op_num r = elim (Option-cases (find op_num r.state.log)) [
  | inl e ↦ rw (e, send_prepare_oks) (send_prepare_oks-state n (inc64 op_num) r)
  | inr (x, e) ↦ rw (e, send_prepare_oks) (send_prepare_oks-state n (inc64 op_num) _)
]

pub strip_all_twice : (log : Log) → strip_all (strip_all log) ≡ strip_all log
strip_all_twice [] = refl
strip_all_twice (p ∷ log) = ap (◌∷◌ (strip p)) (strip_all_twice log)

read_start_view :
    (env : Env) (m : InboundMessage) (log : Log) (b : Replica)
    → deserialize_start_view m.message.payload [] ≡ (true, log)
    → (handle_start_view env m b).state
      ≡ (execute_commited_ops (adopt_start_view env m.message log b)).state
unfolding handle_start_view
read_start_view env m log b e = rw (e, handle_start_view) (send_prepare_oks-state _ _ _)

-- A backup that handles the StartView message of a primary with state `s` takes over its view,
-- its operations and its commit number, and is back in normal operation; the entries arrive
-- without their acknowledgements. The log must fit the integers that it is sent in.
pub handle_start_view-InSync :
    (env : Env) (connection : Option ℕ) (s : ReplicaState) (b : Replica)
    → LogFits s.log
    → let b' =
        handle_start_view env
          (record { connection = connection; message = start_view_message s })
          b in
      InSync s b'.state
      × (b'.state.log ≡ strip_all s.log)
      × (b'.state.commit ≡ s.commit)
      × (b'.state.status ≡ ReplicaStatus.normal)
handle_start_view-InSync env connection s b fits =
    let msg : InboundMessage = record { connection = connection; message = start_view_message s } in
    let log = strip_all s.log in
    let read : deserialize_start_view msg.message.payload [] ≡ (true, log) =
      unfold start_view_message in deserialize-serialize_start_view s.log fits in
    let f = execute_commited_ops-Frame (adopt_start_view env msg.message log b) in
    rw (read_start_view env msg log b read) (
      unfold adopt_start_view start_view_message in
      (
        record { view = f.view; op = f.op; log = ap strip_all f.log ∙ strip_all_twice s.log },
        f.log,
        f.commit,
        f.status,
      ))
