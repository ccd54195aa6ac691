-- ===== src/Replica/Queue/Join.antt =====
-- A replica that joins a view change leaves the message that made it join in its queue.
use vsr_kv.Common.{ℕ, zero, suc, ◌+◌, ◌^◌, ◌<◌, ◌≡◌, ap, ◌∙◌, false, List, ◌∷◌, arith, length}
use vsr_kv.Message.{Command}
use vsr_kv.ReplicaState.{ReplicaStatus, is_normal, enter_new_view}
use vsr_kv.Replica.{Replica, InboundMessage, Env}
use vsr_kv.Replica.ViewChange.{initiate_view_change, check_can_process_start_view_change}
use vsr_kv.Replica.Queue.{
  Verdict, verdict, is_stale, can_process, can_process_command, drain, act, passes,
  determine_state_action, StateAction, process_message_queue,
}

-- A StartViewChange for the next view, at the front of a replica in normal operation.
pub record NextView (m : InboundMessage) (q : List InboundMessage) (r : Replica) : Type 0 where
  pub queue : r.message_queue ≡ m ∷ q
  pub status : r.state.status ≡ ReplicaStatus.normal
  pub command : m.message.header.command ≡ Command.start_view_change
  pub view : m.message.header.view ≡ r.state.view + 1
  pub fits : r.state.view + 1 < 2 ^ 32

waits_first :
    (m : InboundMessage) (q : List InboundMessage) (r : Replica)
    → NextView m q r
    → verdict m r.state ≡ Verdict.wait
unfolding verdict is_stale can_process can_process_command check_can_process_start_view_change
waits_first m q r n = ground (arith, n.status, n.command, n.view)

joins :
    (m : InboundMessage) (q : List InboundMessage) (r : Replica)
    → NextView m q r
    → determine_state_action m.message r.state ≡ StateAction.initiate_view_change
unfolding determine_state_action
joins m q r n = ground (arith, n.command, n.view, n.fits)

handled_then :
    (m : InboundMessage) (q : List InboundMessage) (r : Replica)
    → NextView m q r
    → verdict m (initiate_view_change r).state ≡ Verdict.handle
unfolding verdict is_stale can_process can_process_command check_can_process_start_view_change
    initiate_view_change enter_new_view
handled_then m q r n = ground (arith, n.command, n.view, n.fits)

join_drain :
    (env : Env) (m : InboundMessage) (q : List InboundMessage) (r : Replica)
    → NextView m q r
    → drain env (m ∷ q) false r ≡ (r, m ∷ q, false)
unfolding drain
join_drain env m q r n = rw (waits_first m q r n, drain)

join_act :
    (env : Env) (m : InboundMessage) (q : List InboundMessage) (r : Replica)
    → NextView m q r
    → act env (m ∷ q) r ≡ (initiate_view_change r, m ∷ q)
unfolding act
join_act env m q r n = rw (ap is_normal n.status, joins m q r n, act)

join_passes :
    (k : ℕ) (env : Env) (m : InboundMessage) (q : List InboundMessage) (r : Replica)
    → NextView m q r
    → 0 < k
    → passes k env (m ∷ q) r ≡ (initiate_view_change r, m ∷ q)
unfolding passes
join_passes zero env m q r n h = elim h [ ]
join_passes (suc k) env m q r n h =
    let e = join_drain env m q r n in
    rw (ap (λ d. d.2) e, passes) (ap (λ d. act env d.1 d.0) e ∙ join_act env m q r n)

join_process :
    (env : Env) (m : InboundMessage) (q : List InboundMessage) (r : Replica)
    → NextView m q r
    → process_message_queue env r ≡ record (initiate_view_change r) { message_queue = m ∷ q }
unfolding process_message_queue
join_process env m q r n =
    ap (λ l. requeued (passes (length l + 1) env l r)) n.queue
    ∙ ap requeued (join_passes (length (m ∷ q) + 1) env m q r n (omega arith))
  where
    requeued : Replica × List InboundMessage → Replica
    requeued p = record (p.0) { message_queue = p.1 }

-- The replica starts the view change and the loop ends, although the message at the front could
-- be handled now: it stays in the queue until another message arrives.
pub join_view_change_stalls :
    (env : Env) (m : InboundMessage) (q : List InboundMessage) (r : Replica)
    → NextView m q r
    → (process_message_queue env r ≡ record (initiate_view_change r) { message_queue = m ∷ q })
      × (verdict m (process_message_queue env r).state ≡ Verdict.handle)
join_view_change_stalls env m q r n =
    let e = join_process env m q r n in (e, ap (λ x. verdict m x.state) e ∙ handled_then m q r n)
