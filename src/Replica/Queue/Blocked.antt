-- ===== src/Replica/Queue/Blocked.antt =====
-- Messages that the queue keeps at its front: nothing behind them is handled.
use vsr_kv.Common.{
  ℕ, zero, suc, ◌+◌, ◌≤◌, ◌<◌, ◌≡◌, refl, sym, ap, ◌∙◌, ◌⊎◌, inl, inr, Bool, false, List, [], ◌∷◌,
  ◌++◌, append-nil, append_assoc, arith, Bool-cases, length,
}
use vsr_kv.Message.{Command}
use vsr_kv.ReplicaState.{ReplicaState, ReplicaStatus, is_primary, is_normal}
use vsr_kv.Replica.{Replica, InboundMessage, Env}
use vsr_kv.Replica.Commit.{check_can_process_prepare_ok}
use vsr_kv.Replica.Normal.{
  check_can_process_prepare, check_can_process_commit, check_can_process_request,
}
use vsr_kv.Replica.ViewChange.{
  check_can_process_do_view_change, check_can_process_start_view,
  check_can_process_start_view_change,
}
use vsr_kv.Replica.Queue.{
  Verdict, verdict, is_stale, can_process, can_process_command, drain, act, passes,
  determine_state_action, StateAction, process_message_queue, enqueue_message,
}

-- The message waits, and the replica does nothing about it.
pub record IsStuck (m : InboundMessage) (s : ReplicaState) : Type 0 where
  pub waits : verdict m s ≡ Verdict.wait
  pub idle :
      (is_normal s.status ≡ false)
      ⊎ (determine_state_action m.message s ≡ StateAction.process_normally)

act_stuck :
    (env : Env) (m : InboundMessage) (q : List InboundMessage) (r : Replica)
    → IsStuck m r.state
    → act env (m ∷ q) r ≡ (r, m ∷ q)
unfolding act
act_stuck env m q r stuck = elim (Bool-cases (is_normal r.state.status)) [
  | inr e ↦ rw (e, act)
  | inl e ↦ elim stuck.idle [ inl i ↦ cc | inr i ↦ rw (e, i, act) ]
]

drain_stuck :
    (env : Env) (m : InboundMessage) (q : List InboundMessage) (processed : Bool) (r : Replica)
    → IsStuck m r.state
    → drain env (m ∷ q) processed r ≡ (r, m ∷ q, processed)
unfolding drain
drain_stuck env m q processed r stuck = rw (stuck.waits, drain)

passes_stuck :
    (n : ℕ) (env : Env) (m : InboundMessage) (q : List InboundMessage) (r : Replica)
    → 0 < n
    → IsStuck m r.state
    → passes n env (m ∷ q) r ≡ (r, m ∷ q)
unfolding passes
passes_stuck zero env m q r h stuck = elim h [ ]
passes_stuck (suc n) env m q r h stuck =
    let e = drain_stuck env m q false r stuck in
    rw (ap (λ d. d.2) e, passes) (ap (λ d. act env d.1 d.0) e ∙ act_stuck env m q r stuck)

process_stuck :
    (env : Env) (m : InboundMessage) (q : List InboundMessage) (r : Replica)
    → r.message_queue ≡ m ∷ q
    → IsStuck m r.state
    → process_message_queue env r ≡ r
unfolding process_message_queue
process_stuck env m q r e stuck =
    ap (λ l. requeued (passes (length l + 1) env l r)) e
    ∙ ap requeued (passes_stuck (length (m ∷ q) + 1) env m q r (omega arith) stuck)
    ∙ ap (λ l. record r { message_queue = l }) (sym e)
  where
    requeued : Replica × List InboundMessage → Replica
    requeued p = record (p.0) { message_queue = p.1 }

abbrev pub enqueue_all : Env → List InboundMessage → Replica → Replica
enqueue_all env [] r = r
enqueue_all env (m ∷ ms) r = enqueue_all env ms (enqueue_message env m r)

-- While such a message is at the front, whatever arrives is queued behind it and changes nothing.
pub enqueue_all-IsStuck :
    (env : Env) (m : InboundMessage) (q ms : List InboundMessage) (r : Replica)
    → r.message_queue ≡ m ∷ q
    → IsStuck m r.state
    → enqueue_all env ms r ≡ record r { message_queue = r.message_queue ++ ms }
unfolding enqueue_message
enqueue_all-IsStuck env m q [] r e stuck = rw append-nil
enqueue_all-IsStuck env m q (x ∷ ms) r e stuck =
    let r1 : Replica = record r { message_queue = r.message_queue ++ (x ∷ []) } in
    let e1 : r1.message_queue ≡ m ∷ (q ++ (x ∷ [])) = ap (λ l. l ++ (x ∷ [])) e in
    ap (enqueue_all env ms) (process_stuck env m (q ++ (x ∷ [])) r1 e1 stuck)
    ∙ enqueue_all-IsStuck env m (q ++ (x ∷ [])) ms r1 e1 stuck
    ∙ ap (λ l. record r { message_queue = l }) (append_assoc r.message_queue (x ∷ []) ms)

request-IsStuck :
    (m : InboundMessage) (s : ReplicaState)
    → s.status ≡ ReplicaStatus.normal
    → is_primary s ≡ false
    → m.message.header.command ≡ Command.request
    → m.message.header.view ≤ s.view
    → IsStuck m s
unfolding verdict is_stale can_process can_process_command determine_state_action
    check_can_process_request
request-IsStuck m s n b c v = ground arith

-- A client's request at a backup waits until the status or the view changes.
pub request_blocks_backup :
    (env : Env) (m : InboundMessage) (q ms : List InboundMessage) (r : Replica)
    → r.message_queue ≡ m ∷ q
    → r.state.status ≡ ReplicaStatus.normal
    → is_primary r.state ≡ false
    → m.message.header.command ≡ Command.request
    → m.message.header.view ≤ r.state.view
    → enqueue_all env ms r ≡ record r { message_queue = r.message_queue ++ ms }
request_blocks_backup env m q ms r e n b c v =
    enqueue_all-IsStuck env m q ms r e (request-IsStuck m r.state n b c v)

-- A replica in recovery waits behind any message of its view or a later one that it cannot
-- handle now; the recovery responses behind it are not read.
abbrev pub NeedsAnotherStatus : Command → Type 0
NeedsAnotherStatus Command.prepare = Unit
NeedsAnotherStatus Command.prepare_ok = Unit
NeedsAnotherStatus Command.commit = Unit
NeedsAnotherStatus Command.start_view_change = Unit
NeedsAnotherStatus Command.do_view_change = Unit
NeedsAnotherStatus Command.start_view = Unit
NeedsAnotherStatus _ = ⊥

recovering-IsStuck :
    (command : Command) (m : InboundMessage) (s : ReplicaState)
    → s.status ≡ ReplicaStatus.recovery
    → m.message.header.command ≡ command
    → NeedsAnotherStatus command
    → s.view ≤ m.message.header.view
    → IsStuck m s
unfolding verdict is_stale can_process can_process_command check_can_process_prepare
    check_can_process_prepare_ok check_can_process_commit check_can_process_start_view_change
    check_can_process_do_view_change check_can_process_start_view
recovering-IsStuck Command.prepare m s n c h v = ground arith
recovering-IsStuck _ m s n c h v = ground arith

-- A message that is waited for in another status, and in front of the responses, keeps a
-- replica in recovery.
pub recovery_blocked :
    (env : Env) (m : InboundMessage) (q ms : List InboundMessage) (r : Replica)
    → r.message_queue ≡ m ∷ q
    → r.state.status ≡ ReplicaStatus.recovery
    → NeedsAnotherStatus m.message.header.command
    → r.state.view ≤ m.message.header.view
    → enqueue_all env ms r ≡ record r { message_queue = r.message_queue ++ ms }
recovery_blocked env m q ms r e n h v =
    enqueue_all-IsStuck env m q ms r e (recovering-IsStuck _ m r.state n refl h v)
