-- ===== src/Replica/Queue.antt =====
-- The message queue in server/replica.cpp: which message is handled, and by which handler.
pub mod Settled
pub mod Join
pub mod Blocked
pub mod Keeps
use vsr_kv.Common.{
  ℕ, zero, suc, ◌+◌, Bool, true, false, not, ◌&&◌, List, [], ◌∷◌, ◌++◌, ltb, ◌==◌, if◌then◌else◌,
  length,
}
use vsr_kv.Message.{VsrMessage, Command}
use vsr_kv.ReplicaState.{ReplicaState, inc32, inc64, is_primary, is_normal}
use vsr_kv.Replica.{Replica, InboundMessage, Env}
use vsr_kv.Replica.Commit.{check_can_process_prepare_ok, handle_prepare_ok}
use vsr_kv.Replica.Normal.{
  handle_ping, check_can_process_request, handle_request, check_can_process_prepare, handle_prepare,
  check_can_process_commit, handle_commit,
}
use vsr_kv.Replica.ViewChange.{
  initiate_view_change as begin_view_change, check_can_process_start_view_change,
  handle_start_view_change, check_can_process_do_view_change, handle_do_view_change,
  check_can_process_start_view, handle_start_view,
}
use vsr_kv.Replica.Recovery.{
  initiate_recovery as begin_recovery, check_can_process_recovery_request, handle_recovery_request,
  check_can_process_recovery_response, handle_recovery_response,
}

pub data StateAction : Type 0 where
  process_normally initiate_view_change initiate_recovery : StateAction

-- `can_process`, a switch on the command.
unfoldable pub can_process_command : Command → VsrMessage → ReplicaState → Bool
can_process_command Command.ping msg s = true
can_process_command Command.pong msg s = true
can_process_command Command.request msg s = check_can_process_request msg s
can_process_command Command.prepare msg s = check_can_process_prepare msg s
can_process_command Command.prepare_ok msg s = check_can_process_prepare_ok msg s
can_process_command Command.commit msg s = check_can_process_commit msg s
can_process_command Command.start_view_change msg s = check_can_process_start_view_change msg s
can_process_command Command.do_view_change msg s = check_can_process_do_view_change msg s
can_process_command Command.start_view msg s = check_can_process_start_view msg s
can_process_command Command.recovery msg s = check_can_process_recovery_request msg s
can_process_command Command.recovery_response msg s = check_can_process_recovery_response msg s
can_process_command _ msg s = false

unfoldable pub can_process : InboundMessage → ReplicaState → Bool
unfolding can_process_command
can_process inbound s = can_process_command inbound.message.header.command inbound.message s

-- The switch of `process_message_queue`; the default case only warns.
unfoldable pub dispatch_command : Command → Env → InboundMessage → Replica → Replica
dispatch_command Command.ping env inbound r = handle_ping inbound r
dispatch_command Command.request env inbound r = handle_request inbound r
dispatch_command Command.prepare env inbound r = handle_prepare env inbound r
dispatch_command Command.prepare_ok env inbound r = handle_prepare_ok inbound r
dispatch_command Command.commit env inbound r = handle_commit env inbound r
dispatch_command Command.start_view_change env inbound r = handle_start_view_change env inbound r
dispatch_command Command.do_view_change env inbound r = handle_do_view_change env inbound r
dispatch_command Command.start_view env inbound r = handle_start_view env inbound r
dispatch_command Command.recovery env inbound r = handle_recovery_request inbound r
dispatch_command Command.recovery_response env inbound r = handle_recovery_response env inbound r
dispatch_command _ env inbound r = r

unfoldable pub dispatch : Env → InboundMessage → Replica → Replica
unfolding dispatch_command
dispatch env inbound r = dispatch_command inbound.message.header.command env inbound r

-- The commands that are not dropped for an old view.
abbrev is_view_free : Command → Bool
is_view_free Command.request = true
is_view_free Command.recovery = true
is_view_free _ = false

unfoldable pub is_stale : VsrMessage → ReplicaState → Bool
is_stale msg s = not (is_view_free msg.header.command) && ltb msg.header.view s.view

abbrev joins_view_change : Command → Bool
joins_view_change Command.start_view_change = true
joins_view_change Command.do_view_change = true
joins_view_change _ = false

abbrev is_prepare : Command → Bool
is_prepare Command.prepare = true
is_prepare _ = false

unfoldable pub determine_state_action : VsrMessage → ReplicaState → StateAction
determine_state_action stuck_msg s =
    let h = stuck_msg.header in
    if ltb s.view h.view
    then (if h.view == inc32 s.view && joins_view_change h.command
        then StateAction.initiate_view_change
        else StateAction.initiate_recovery)
    else if not (is_primary s)
        && (is_prepare h.command && (h.view == s.view && ltb (inc64 s.op) h.op))
    then StateAction.initiate_recovery
    else StateAction.process_normally

-- What becomes of the message at the front.
pub data Verdict : Type 0 where
  discard handle wait : Verdict

unfoldable pub verdict : InboundMessage → ReplicaState → Verdict
unfolding is_stale can_process
verdict inbound s =
    if is_stale inbound.message s
    then Verdict.discard
    else if can_process inbound s
    then Verdict.handle
    else Verdict.wait

-- The inner loop: the replica, the messages that are left, and `processed_in_pass`. The handlers
-- do not touch the queue.
unfoldable pub drain :
    Env → List InboundMessage → Bool → Replica → Replica × List InboundMessage × Bool
drain env [] processed r = (r, [], processed)
drain env (inbound ∷ queue) processed r = elim (verdict inbound r.state) [
  | discard ↦ drain env queue true r
  | handle ↦ drain env queue true (dispatch env inbound r)
  | wait ↦ (r, inbound ∷ queue, processed)
]

-- The action for a message that waits at the front.
unfoldable pub act : Env → List InboundMessage → Replica → Replica × List InboundMessage
act env [] r = (r, [])
act env (stuck ∷ queue) r =
    if is_normal r.state.status
    then elim (determine_state_action stuck.message r.state) [
      | initiate_recovery ↦ (begin_recovery env r, [])
      | initiate_view_change ↦ (begin_view_change r, stuck ∷ queue)
      | process_normally ↦ (r, stuck ∷ queue)
    ]
    else (r, stuck ∷ queue)

-- The outer loop. A further pass follows on a pass that took a message off the queue.
unfoldable pub passes : ℕ → Env → List InboundMessage → Replica → Replica × List InboundMessage
unfolding act drain
passes zero env queue r = (r, queue)
passes (suc n) env queue r =
    let (r1, waiting, processed) = drain env queue false r in
    let (r2, left) = act env waiting r1 in
    elim processed [ true ↦ passes n env left r2 | false ↦ (r2, left) ]

unfoldable pub process_message_queue : Env → Replica → Replica
unfolding passes
process_message_queue env r =
    let (r1, left) = passes (length r.message_queue + 1) env r.message_queue r in
    record r1 { message_queue = left }

-- `enqueue_message`, with the task that it posts.
unfoldable pub enqueue_message : Env → InboundMessage → Replica → Replica
unfolding process_message_queue
enqueue_message env inbound r =
    process_message_queue env (record r { message_queue = r.message_queue ++ (inbound ∷ []) })
