-- ===== src/Cluster/Task.antt =====
-- The queue task of a replica of the cluster: each handler it may call, for the primary and for
-- a backup.
use vsr_kv.Common.{
  ℕ, suc, ◌+◌, ◌≤◌, ◌<◌, ◌≡◌, refl, sym, subst, ◌≢◌, true, false, List, ◌∷◌, arith, ◌==◌, length,
}
use vsr_kv.Message.{VsrMessage, Command}
use vsr_kv.ReplicaState.{ReplicaState, is_primary, is_normal}
use vsr_kv.Replica.{Replica, InboundMessage, Env}
use vsr_kv.Replica.Normal.{
  check_can_process_request, check_can_process_prepare, check_can_process_commit,
}
use vsr_kv.Replica.Commit.{check_can_process_prepare_ok}
use vsr_kv.Replica.Queue.{
  Verdict, verdict, can_process, can_process_command, dispatch, dispatch_command,
  determine_state_action, StateAction, process_message_queue,
}
use vsr_kv.Replica.Queue.Keeps.{Keeps, process_message_queue-Keeps}
use vsr_kv.Cluster.{last_u64}
use vsr_kv.Cluster.History.{Core, core, History, Holds}
use vsr_kv.Cluster.Primary.{led}
use vsr_kv.Cluster.Backup.{beside}
use vsr_kv.Cluster.Runs.{Runs, Carries-idle, Runs-Carries}
use vsr_kv.Cluster.Kept.{Kept}
use vsr_kv.Cluster.Leader.{
  is_primary_of, handle_ping-Kept, handle_request-Kept, handle_prepare_ok-Kept,
}
use vsr_kv.Cluster.Follower.{handle_commit-Kept, handle_prepare-Kept}

handled-can_process :
    (m : InboundMessage) (s : ReplicaState) → verdict m s ≡ Verdict.handle → can_process m s ≡ true
unfolding verdict
handled-can_process m s h = ground arith

no_view_change :
    (m : VsrMessage) (s : ReplicaState)
    → m.header.view ≡ 0
    → s.view ≡ 0
    → determine_state_action m s ≢ StateAction.initiate_view_change
unfolding determine_state_action
no_view_change m s v w = ground (arith, v, w)

backup_only_prepare :
    (m : VsrMessage) (s : ReplicaState)
    → check_can_process_prepare m s ≡ true
    → is_primary s ≡ false
unfolding check_can_process_prepare
backup_only_prepare m s h = ground arith

backup_only_commit :
    (m : VsrMessage) (s : ReplicaState) → check_can_process_commit m s ≡ true → is_primary s ≡ false
unfolding check_can_process_commit
backup_only_commit m s h = ground arith

primary_only_request :
    (m : VsrMessage) (s : ReplicaState) → check_can_process_request m s ≡ true → is_primary s ≡ true
unfolding check_can_process_request
primary_only_request m s h = ground arith

primary_only_prepare_ok :
    (m : VsrMessage) (s : ReplicaState)
    → check_can_process_prepare_ok m s ≡ true
    → is_primary s ≡ true
unfolding check_can_process_prepare_ok
primary_only_prepare_ok m s h = ground arith

requeued-Runs :
    (r : Replica) (q : List InboundMessage) → Runs r → Runs (record r { message_queue = q })
requeued-Runs r q v =
    Runs-Carries r _ (Carries-idle r _ refl (omega arith) (omega arith) (λ k p l. refl)) v

module _ (n i : ℕ) (at : Core → History) (start : Core) where
  -- A handler for each command keeps the replica, once the message has left the queue.
  abbrev pub Handles : Env → Type 0
  Handles env =
      (c : Command) (m : InboundMessage) (q : List InboundMessage) (r : Replica)
      → suc r.state.op + length q < last_u64
      → can_process_command c m.message r.state ≡ true
      → Holds c n (at (core r.state)) m.message
      → Kept n i at start r q
      → Kept n i at start (dispatch_command c env m r) q

  Kept-tail :
      (m : InboundMessage) (q : List InboundMessage) (r : Replica)
      → Kept n i at start r (m ∷ q)
      → Kept n i at start r q
  Kept-tail m q r k = record {
    grows = k.grows;
    sound = k.sound;
    follows = k.follows;
    sent = k.sent;
    queue = k.queue.1;
    room = omega (arith, k.room);
    runs = k.runs;
  }

  Handles-Keeps : (env : Env) → Handles env → Keeps env (Kept n i at start)
  unfolding dispatch can_process
  Handles-Keeps env f = record {
    discarded = Kept-tail;
    handled = λ m q r e k.
        f m.message.header.command m q r (omega (arith, k.room)) (handled-can_process m r.state e)
          ((k.queue.0).1) (Kept-tail m q r k);
    stays = λ m q r k. no_view_change m.message r.state (k.queue.0).0 k.follows.view;
  }

  -- The task keeps it too, and leaves the messages in the queue that it has not handled.
  pub task-Kept :
      (env : Env) (r : Replica)
      → Handles env
      → Kept n i at start r r.message_queue
      → is_normal (process_message_queue env r).state.status ≡ true
      → Kept n i at start (process_message_queue env r) (process_message_queue env r).message_queue
  task-Kept env r f k h =
      let (s, q, e, g) =
        process_message_queue-Keeps env (Kept n i at start) (Handles-Keeps env f) r k h in
      subst (λ x. Kept n i at start x x.message_queue) (sym e)
        (record {
          grows = g.grows;
          sound = g.sound;
          follows = g.follows;
          sent = g.sent;
          queue = g.queue;
          room = g.room;
          runs = requeued-Runs s q g.runs;
        })

pub leader-Handles :
    (n : ℕ) (p : 0 < n) (held : ℕ → ℕ) (start : Core) (env : Env)
    → Handles n 0 (λ c. led c held) start env
unfolding dispatch_command can_process_command
leader-Handles n p held start env Command.ping m q r l c v k = handle_ping-Kept n _ 0 start q m r k
leader-Handles n p held start env Command.pong m q r l c v k = k
leader-Handles n p held start env Command.request m q r l c v k =
    handle_request-Kept n p held start q m r l k
leader-Handles n p held start env Command.reply m q r l c v k = k
leader-Handles n p held start env Command.prepare m q r l c v k =
    absurd (cc (backup_only_prepare m.message r.state c, is_primary_of 0 _ r.state k.follows))
leader-Handles n p held start env Command.prepare_ok m q r l c v k =
    handle_prepare_ok-Kept n p held start q m r v.0 v.1 k
leader-Handles n p held start env Command.commit m q r l c v k =
    absurd (cc (backup_only_commit m.message r.state c, is_primary_of 0 _ r.state k.follows))
leader-Handles n p held start env _ m q r l c v k = absurd v

not_zero : (i : ℕ) → i ≢ 0 → (i == 0) ≡ false
not_zero i h = ground (arith, h)

pub follower-Handles :
    (n i : ℕ) (p : Core) (held : ℕ → ℕ) (start : Core) (env : Env)
    → i < n
    → n ≤ 256
    → i ≢ 0
    → Handles n i (beside i p held) start env
unfolding dispatch_command can_process_command
follower-Handles n i p held start env a b z Command.ping m q r l c v k =
    handle_ping-Kept n _ i start q m r k
follower-Handles n i p held start env a b z Command.pong m q r l c v k = k
follower-Handles n i p held start env a b z Command.request m q r l c v k = absurd (
    cc
      (primary_only_request m.message r.state c, is_primary_of i _ r.state k.follows, not_zero i z))
follower-Handles n i p held start env a b z Command.reply m q r l c v k = k
follower-Handles n i p held start env a b z Command.prepare m q r l c v k =
    handle_prepare-Kept n i p held start q env m r a b l c v k
follower-Handles n i p held start env a b z Command.prepare_ok m q r l c v k = absurd (
    cc (
      primary_only_prepare_ok m.message r.state c,
      is_primary_of i _ r.state k.follows,
      not_zero i z,
    ))
follower-Handles n i p held start env a b z Command.commit m q r l c v k =
    handle_commit-Kept n i p held start q env m r v k
follower-Handles n i p held start env a b z _ m q r l c v k = absurd v
