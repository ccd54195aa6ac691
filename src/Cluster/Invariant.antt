-- ===== src/Cluster/Invariant.antt =====
-- Every reachable cluster follows the history of its primary.
use vsr_kv.Common.{
  ℕ, ◌+◌, ◌≤◌, ◌<◌, ◌≡◌, refl, sym, ap, subst, ◌∙◌, inl, inr, true, not, ◌||◌, List, [], ◌∷◌, ◌++◌,
  arith, ℕ_discrete, Bool-cases, length, All, All-append,
}
use vsr_kv.Common.Map.{find, nat_key}
use vsr_kv.Message.{VsrMessage, Command}
use vsr_kv.Message.Checksum.{Blake3}
use vsr_kv.Message.Codec.{sealed}
use vsr_kv.ReplicaState.{PeerConfig, is_primary, is_normal}
use vsr_kv.Replica.{Replica, InboundMessage, Output, Env}
use vsr_kv.Replica.Normal.{send_commit_message_if_needed}
use vsr_kv.Replica.Queue.{process_message_queue}
use vsr_kv.Replica.Events.{push_message}
use vsr_kv.Cluster.{
  Cluster, update, message_of, is_client_command, FromClient, last_u64, Step, Reach,
}
use vsr_kv.Cluster.History.{bare, core, History, Grows, Grows-refl, Holds, Valid, Follows, Sound}
use vsr_kv.Replica.Execute.Machine.{machine_of}
use vsr_kv.Cluster.Runs.{Runs, Carries-idle, Runs-Carries}
use vsr_kv.Cluster.Kept.{Kept}
use vsr_kv.Cluster.Task.{Handles, task-Kept, leader-Handles, follower-Handles}
use vsr_kv.Cluster.Members.{
  hist, around, around_self, around-update, led-around, beside-around, Inv, update-Inv,
}
use vsr_kv.Cluster.Started.{fault_of, started-Inv}

idle-Runs :
    (r s : Replica) → core s.state ≡ core r.state → machine_of s ≡ machine_of r → Runs r → Runs s
idle-Runs r s e x v =
    Runs-Carries r s
      (Carries-idle r s x (omega (arith, ap (λ c. c.op) e)) (omega (arith, ap (λ c. c.commit) e))
        (λ k p l. ap (λ c. bare (find k c.log)) e))
      v

heartbeat-machine : (r : Replica) → machine_of (send_commit_message_if_needed r) ≡ machine_of r
unfolding send_commit_message_if_needed
heartbeat-machine r = ground arith

module _ (n f : ℕ) where
  -- An event that leaves the log and the numbers alone.
  idle-Inv :
      (c : Cluster) (i : ℕ) (r : Replica)
      → i < n
      → core r.state ≡ core (c i).state
      → All (λ o. Valid n (hist c) (message_of o)) r.sent
      → All (λ m. Valid n (hist c) m.message) r.message_queue
      → machine_of r ≡ machine_of (c i)
      → Inv n f c
      → Inv n f (update c i r)
  idle-Inv c i r l e s q x v =
      update-Inv n f c i r (hist c)
        (sym (around_self c i) ∙ ap (around c i) (sym e) ∙ around-update c i r)
        (Grows-refl (hist c)) v.sound
        (record {
          follows = subst (Follows (hist c) i) (sym e) (v.members i l).follows;
          sent = s;
          queue = q;
          runs = idle-Runs (c i) r e x (v.members i l).runs;
        })
        v

  push_message-Inv :
      (c : Cluster) (i : ℕ) (m : InboundMessage)
      → i < n
      → Valid n (hist c) m.message
      → Inv n f c
      → Inv n f (update c i (push_message m (c i)))
  unfolding push_message
  push_message-Inv c i m l f v =
      let k = v.members i l in
      idle-Inv c i (push_message m (c i)) l refl k.sent
        (All-append (λ m. Valid n (hist c) m.message) (c i).message_queue (m ∷ []) k.queue (f, tt))
        refl v

  heartbeat-sent :
      (h : History) (r : Replica)
      → r.state.view ≡ 0
      → r.state.commit ≤ h.primary.commit
      → All (λ o. Valid n h (message_of o)) r.sent
      → (core (send_commit_message_if_needed r).state ≡ core r.state)
        × ((send_commit_message_if_needed r).message_queue ≡ r.message_queue)
        × All (λ o. Valid n h (message_of o)) (send_commit_message_if_needed r).sent
  unfolding send_commit_message_if_needed
  heartbeat-sent h r e l a =
      elim (Bool-cases (not (is_primary r.state) || not (is_normal r.state.status))) [
        | inl x ↦ rw (x, send_commit_message_if_needed) (refl, refl, a)
        | inr x ↦
            rw (x, send_commit_message_if_needed)
              (refl, refl, All-append (λ o. Valid n h (message_of o)) r.sent _ a ((e, l), tt))
      ]

  heartbeat-Inv :
      (c : Cluster) (i : ℕ)
      → i < n
      → Inv n f c
      → Inv n f (update c i (send_commit_message_if_needed (c i)))
  heartbeat-Inv c i l v =
      let k = v.members i l in
      let (e, q, s) = heartbeat-sent (hist c) (c i) k.follows.view k.follows.commit k.sent in
      idle-Inv c i _ l e s (rw q k.queue) (heartbeat-machine (c i)) v

  around-Handles :
      (c : Cluster) (i : ℕ) (env : Env)
      → i < n
      → n ≤ 256
      → Handles n i (around c i) (core (c i).state) env
  around-Handles c i env l b = elim (ℕ_discrete i 0) [
    | yes e ↦
        subst (λ i. Handles n i (around c i) (core (c i).state) env) (sym e)
          (subst (λ at. Handles n 0 at (core (c 0).state) env) (led-around c)
            (leader-Handles n (omega arith) (λ j. (c j).state.op) (core (c 0).state) env))
    | no e ↦
        subst (λ at. Handles n i at (core (c i).state) env) (beside-around c i e)
          (follower-Handles n i (core (c 0).state) (λ j. (c j).state.op) (core (c i).state) env l b
            e)
  ]

  start-Kept :
      (c : Cluster) (i : ℕ)
      → i < n
      → (c i).state.op + length (c i).message_queue < last_u64
      → Inv n f c
      → Kept n i (around c i) (core (c i).state) (c i) (c i).message_queue
  start-Kept c i l b v =
      let k = v.members i l in
      let e = sym (around_self c i) in
      record {
        grows = Grows-refl (around c i (core (c i).state));
        sound = subst (Sound n) e v.sound;
        follows = subst (λ h. Follows h i (core (c i).state)) e k.follows;
        sent = subst (λ h. All (λ o. Valid n h (message_of o)) (c i).sent) e k.sent;
        queue = subst (λ h. All (λ m. Valid n h m.message) (c i).message_queue) e k.queue;
        room = b;
        runs = k.runs;
      }

  task-Inv :
      (c : Cluster) (i : ℕ) (env : Env)
      → i < n
      → n ≤ 256
      → (c i).state.op + length (c i).message_queue < last_u64
      → is_normal (process_message_queue env (c i)).state.status ≡ true
      → Inv n f c
      → Inv n f (update c i (process_message_queue env (c i)))
  task-Inv c i env l b room h v =
      let r = process_message_queue env (c i) in
      let k =
        task-Kept n i (around c i) (core (c i).state) env (c i) (around-Handles c i env l b)
          (start-Kept c i l room v) h in
      update-Inv n f c i r (around c i (core r.state)) (around-update c i r)
        (subst (λ h. Grows h (around c i (core r.state))) (around_self c i) k.grows) k.sound
        (record { follows = k.follows; sent = k.sent; queue = k.queue; runs = k.runs }) v

client-Valid : (n : ℕ) (h : History) (m : VsrMessage) → FromClient m → Valid n h m
client-Valid n h m (c, v) = (v, go m.header.command c)
  where
    go : (c : Command) → is_client_command c ≡ true → Holds c n h m
    go Command.request e = tt
    go Command.ping e = tt
    go _ e = cc

sealed-Valid :
    (blake3 : Blake3) (n : ℕ) (h : History) (m : VsrMessage)
    → Valid n h m
    → Valid n h (sealed blake3 m)
unfolding sealed
sealed-Valid blake3 n h m v = (v.0, go m.header.command v.1)
  where
    go : (c : Command) → Holds c n h m → Holds c n h (sealed blake3 m)
    go Command.ping v = tt
    go Command.pong v = tt
    go Command.request v = tt
    go Command.reply v = tt
    go Command.prepare v = record {
      positive = v.positive;
      op = v.op;
      commit = v.commit;
      entry = v.entry;
    }
    go Command.prepare_ok v = v
    go Command.commit v = v
    go _ v = absurd v

All-middle :
    (P : Output → Type 0) (before : List Output) (o : Output) (after : List Output)
    → All P (before ++ (o ∷ after))
    → P o
All-middle P [] o after a = a.0
All-middle P (p ∷ before) o after a = All-middle P before o after a.1

module _ (blake3 : Blake3) (n : ℕ) (p : 0 < n) (b : n ≤ 256) where
  Step-Inv : (f : ℕ) {c d : Cluster} → Step blake3 n c d → Inv n f c → Inv n f d
  Step-Inv f (Step.delivered c i j before o after connection l k e) v =
      push_message-Inv n f c i _ l
        (sealed-Valid blake3 n (hist c) (message_of o) (
          All-middle (λ o. Valid n (hist c) (message_of o)) before o after
            (subst (All (λ o. Valid n (hist c) (message_of o))) e (v.members j k).sent)))
        v
  Step-Inv f (Step.client_sends c i connection msg l x) v =
      push_message-Inv n f c i _ l (client-Valid n (hist c) msg x) v
  Step-Inv f (Step.queue_task c i env l room h) v = task-Inv n f c i env l b room h v
  Step-Inv f (Step.heartbeat c i l) v = heartbeat-Inv n f c i l v

  pub Reach-Inv :
      {config : List PeerConfig} {c : Cluster} → Reach blake3 n config c → Inv n (fault_of config) c
  Reach-Inv {config} (Reach.started c env s) = started-Inv n config c env p s
  Reach-Inv {config} (Reach.next r s) = Step-Inv (fault_of config) s (Reach-Inv r)
