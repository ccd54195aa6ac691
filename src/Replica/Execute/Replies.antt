-- ===== src/Replica/Execute/Replies.antt =====
-- What the execution of operations sends: replies alone.
use vsr_kv.Common.{
  ℕ, zero, suc, ◌≡◌, refl, sym, subst, inl, inr, none, some, List, Bool-cases, Option-cases, All,
  All-append,
}
use vsr_kv.Common.Map.{find, nat_key}
use vsr_kv.Utilities.{u128_key}
use vsr_kv.Message.{VsrMessage, Command}
use vsr_kv.Serialization.{LogEntry}
use vsr_kv.ReplicaState.{is_primary, inc64}
use vsr_kv.Replica.{Replica, Connection, Output, with_state}
use vsr_kv.Replica.Execute.{
  reply_to_client, result_of, apply_entry, execute_op, execute_loop, execute_commited_ops,
}
use vsr_kv.Replica.Execute.Machine.{execute_op_cases, execute_loop_cases, execute_op-Frame}

-- The replies of a replica in a view.
abbrev pub Replies : (Output → Type 0) → ℕ → Type 0
Replies P view =
    (connection : Connection) (msg : VsrMessage)
    → msg.header.command ≡ Command.reply
    → msg.header.view ≡ view
    → P (Output.send_message connection msg)

module _ (P : Output → Type 0) where
  reply_to_client-sent :
      (entry : LogEntry) (result : List ℕ) (r : Replica)
      → Replies P r.state.view
      → All P r.sent
      → All P (reply_to_client entry result r).sent
  unfolding reply_to_client
  reply_to_client-sent entry result r p a = elim (Bool-cases (is_primary r.state)) [
    | inr e ↦ rw (reply_to_client, e) a
    | inl e ↦ elim (Option-cases (find entry.client_id r.client_connections)) [
      | inl x ↦ rw (reply_to_client, e, x) a
      | inr (none, x) ↦ rw (reply_to_client, e, x) a
      | inr (some connection, x) ↦
          rw (reply_to_client, e, x) (All-append P r.sent _ a (p (some connection) _ refl refl, tt))
    ]
  ]

  execute_op-sent :
      (op : ℕ) (e : LogEntry) (r : Replica)
      → Replies P r.state.view
      → All P r.sent
      → All P (execute_op op e r).sent
  unfolding apply_entry
  execute_op-sent op e r p a =
      execute_op_cases (λ s. All P s.sent) op e r (λ t. a)
        (λ t.
          reply_to_client-sent e (result_of e r.state) (with_state (apply_entry e r.state) r) p a)

  execute_loop-sent :
      (n : ℕ) (r : Replica) → Replies P r.state.view → All P r.sent → All P (execute_loop n r).sent
  execute_loop-sent zero r p a = unfold execute_loop in a
  execute_loop-sent (suc n) r p a =
      execute_loop_cases (λ s. All P s.sent) n r (λ t. a) (λ t h. a)
        (λ e t h.
          let op = inc64 r.state.last_executed_op in
          execute_loop-sent n (execute_op op e r)
            (subst (Replies P) (sym ((execute_op-Frame op e r).view)) p)
            (execute_op-sent op e r p a))

  pub execute_commited_ops-sent :
      (r : Replica) → Replies P r.state.view → All P r.sent → All P (execute_commited_ops r).sent
  execute_commited_ops-sent r p a = unfold execute_commited_ops in execute_loop-sent _ r p a
