-- ===== src/Replica/Invariant/Queue.antt =====
-- The queue keeps the invariant, whichever handler it calls.
use vsr_kv.Common.{
  ℕ, zero, suc, ◌+◌, inl, inr, Bool, true, false, List, [], ◌∷◌, arith, Bool-cases, length, All,
}
use vsr_kv.Message.{Command}
use vsr_kv.ReplicaState.{is_normal}
use vsr_kv.Replica.{Replica, InboundMessage, Env}
use vsr_kv.Replica.Queue.Settled.{Verdict-cases}
use vsr_kv.Replica.ViewChange.{initiate_view_change}
use vsr_kv.Replica.Recovery.{initiate_recovery}
use vsr_kv.Replica.Queue.{
  StateAction, determine_state_action, dispatch_command, dispatch, verdict, drain, act, passes,
  process_message_queue,
}
use vsr_kv.Replica.Invariant.{InboundInRange, Inv}
use vsr_kv.Replica.Invariant.Execute.{handle_prepare_ok-Inv}
use vsr_kv.Replica.Invariant.Normal.{
  handle_ping-Inv, handle_request-Inv, handle_prepare-Inv, handle_commit-Inv,
}
use vsr_kv.Replica.Invariant.StartView.{handle_start_view-Inv}
use vsr_kv.Replica.Invariant.ViewChange.{
  EnvFits, initiate_view_change-Inv, handle_start_view_change-Inv, handle_do_view_change-Inv,
}
use vsr_kv.Replica.Invariant.Recovery.{
  initiate_recovery-Inv, handle_recovery_request-Inv, handle_recovery_response-Inv,
}

dispatch_command-Inv :
    (c : Command) (env : Env) (m : InboundMessage) (r : Replica)
    → EnvFits env
    → InboundInRange m
    → Inv r
    → Inv (dispatch_command c env m r)
unfolding dispatch_command
dispatch_command-Inv Command.ping env m r e f v = handle_ping-Inv m r f.0 v
dispatch_command-Inv Command.request env m r e f v = handle_request-Inv m r f v
dispatch_command-Inv Command.prepare env m r e f v = handle_prepare-Inv env m r f v
dispatch_command-Inv Command.prepare_ok env m r e f v = handle_prepare_ok-Inv m r v
dispatch_command-Inv Command.commit env m r e f v = handle_commit-Inv env m r f v
dispatch_command-Inv Command.start_view_change env m r e f v =
    handle_start_view_change-Inv env m r e v
dispatch_command-Inv Command.do_view_change env m r e f v =
    handle_do_view_change-Inv env m r e f.0 v
dispatch_command-Inv Command.start_view env m r e f v = handle_start_view-Inv env m r f.0 v
dispatch_command-Inv Command.recovery env m r e f v = handle_recovery_request-Inv m r v
dispatch_command-Inv Command.recovery_response env m r e f v =
    handle_recovery_response-Inv env m r f.0 v
dispatch_command-Inv _ env m r e f v = v

-- The replica, and the messages that are left.
abbrev Left : Replica → List InboundMessage → Type 0
Left r queue = Inv r × All InboundInRange queue

module _ (env : Env) (fits : EnvFits env) where
  dispatch-Inv :
      (m : InboundMessage) (r : Replica) → InboundInRange m → Inv r → Inv (dispatch env m r)
  unfolding dispatch
  dispatch-Inv m r f v = dispatch_command-Inv m.message.header.command env m r fits f v

  drain-Inv :
      (queue : List InboundMessage) (processed : Bool) (r : Replica)
      → Left r queue
      → let d = drain env queue processed r in Left d.0 d.1
  unfolding drain
  drain-Inv [] processed r (v, f) = (v, f)
  drain-Inv (m ∷ queue) processed r (v, f) = elim (Verdict-cases (verdict m r.state)) [
    | inl e ↦ rw (e, drain) (drain-Inv queue true r (v, f.1))
    | inr (inl e) ↦
        rw (e, drain) (drain-Inv queue true (dispatch env m r) (dispatch-Inv m r f.0 v, f.1))
    | inr (inr e) ↦ rw (e, drain) (v, f)
  ]

  acted-Inv :
      (action : StateAction) (queue : List InboundMessage) (r : Replica)
      → Left r queue
      → let d : Replica × List InboundMessage = elim action [
        | StateAction.initiate_recovery ↦ (initiate_recovery env r, [])
        | StateAction.initiate_view_change ↦ (initiate_view_change r, queue)
        | StateAction.process_normally ↦ (r, queue)
      ] in
        Left d.0 d.1
  acted-Inv StateAction.initiate_recovery queue r (v, f) = (initiate_recovery-Inv env r v, tt)
  acted-Inv StateAction.initiate_view_change queue r (v, f) = (initiate_view_change-Inv r v, f)
  acted-Inv StateAction.process_normally queue r (v, f) = (v, f)

  act-Inv :
      (queue : List InboundMessage) (r : Replica)
      → Left r queue
      → let d = act env queue r in Left d.0 d.1
  unfolding act
  act-Inv [] r (v, f) = (v, f)
  act-Inv (stuck ∷ queue) r (v, f) = elim (Bool-cases (is_normal r.state.status)) [
    | inr e ↦ rw (e, act) (v, f)
    | inl e ↦
        rw (e, act)
          (acted-Inv (determine_state_action stuck.message r.state) (stuck ∷ queue) r (v, f))
  ]

  passes-Inv :
      (n : ℕ) (queue : List InboundMessage) (r : Replica)
      → Left r queue
      → let d = passes n env queue r in Left d.0 d.1
  unfolding passes
  passes-Inv zero queue r v = v
  passes-Inv (suc n) queue r v =
      let d = drain env queue false r in
      let a = act-Inv d.1 d.0 (drain-Inv queue false r v) in
      elim (Bool-cases (d.2)) [
        | inl e ↦ rw (e, passes) (passes-Inv n (act env d.1 d.0).1 (act env d.1 d.0).0 a)
        | inr e ↦ rw (e, passes) a
      ]

  pub process_message_queue-Inv : (r : Replica) → Inv r → Inv (process_message_queue env r)
  unfolding process_message_queue
  process_message_queue-Inv r v =
      let left = passes-Inv (length r.message_queue + 1) r.message_queue r (v, v.message_queue) in
      ground (arith, left.0, left.1)
