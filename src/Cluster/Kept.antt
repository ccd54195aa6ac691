-- ===== src/Cluster/Kept.antt =====
-- What holds of one replica of the cluster, and the small steps of its handlers.
use vsr_kv.Common.{
  ℕ, ◌+◌, ◌<◌, ◌≡◌, refl, sym, subst, ◌∙◌, inr, List, [], ◌∷◌, arith, length, All, All-append,
}
use vsr_kv.Message.{VsrMessage, Command}
use vsr_kv.ReplicaState.{ReplicaState}
use vsr_kv.Replica.{Replica, InboundMessage, Output, emit}
use vsr_kv.Replica.Execute.{execute_commited_ops}
use vsr_kv.Replica.Execute.Machine.{Frame, execute_commited_ops-Frame}
use vsr_kv.Replica.Execute.Replies.{execute_commited_ops-sent}
use vsr_kv.Cluster.Runs.{Runs, Carries, Carries-idle, Runs-Carries, execute_commited_ops-Runs}
use vsr_kv.Cluster.{message_of, last_u64}
use vsr_kv.Cluster.History.{
  Core, core, History, Grows, Grows-trans, Holds, Valid, Valid-mono, Follows, Sound, Change,
}

pub All-mono :
    {A : Type 0} (P Q : A → Type 0) → ((a : A) → P a → Q a) → (l : List A) → All P l → All Q l
All-mono P Q f [] a = tt
All-mono P Q f (x ∷ l) a = (f x a.0, All-mono P Q f l a.1)

reply-Valid :
    (n : ℕ) (h : History) (m : VsrMessage)
    → m.header.command ≡ Command.reply
    → m.header.view ≡ 0
    → Valid n h m
reply-Valid n h m c v = (v, subst (λ c. Holds c n h m) (sym c) tt)

-- Replica `i` of `n` since its state was `start`, and the messages that are left in its queue;
-- `at` is the history for each of its states.
module _ (n i : ℕ) (at : Core → History) where
  abbrev pub Sends : ReplicaState → List Output → Type 0
  Sends s sent = All (λ o. Valid n (at (core s)) (message_of o)) sent

  pub record Kept (start : Core) (r : Replica) (q : List InboundMessage) : Type 0 where
    pub grows : Grows (at start) (at (core r.state))
    pub sound : Sound n (at (core r.state))
    pub follows : Follows (at (core r.state)) i (core r.state)
    pub sent : Sends r.state r.sent
    pub queue : All (λ m. Valid n (at (core r.state)) m.message) q
    pub room : r.state.op + length q < last_u64
    pub runs : Runs r

  module _ (start : Core) (q : List InboundMessage) where
    pub Kept-Change :
        (r s : Replica)
        → Change n i at (core r.state) (core s.state)
        → Carries r s
        → s.sent ≡ r.sent
        → s.state.op + length q < last_u64
        → Kept start r q
        → Kept start s q
    Kept-Change r s c x e l k = record {
      grows = Grows-trans k.grows c.grows;
      sound = c.sound;
      follows = c.follows;
      sent = rw e (All-mono _ _ (λ o. Valid-mono n (message_of o) c.grows) r.sent k.sent);
      queue = All-mono _ _ (λ m. Valid-mono n m.message c.grows) q k.queue;
      room = l;
      runs = Runs-Carries r s x k.runs;
    }

    pub Kept-core :
        (r s : Replica)
        → core s.state ≡ core r.state
        → Runs s
        → Sends r.state s.sent
        → Kept start r q
        → Kept start s q
    Kept-core r s e x a k = record {
      grows = subst (λ c. Grows (at start) (at c)) (sym e) k.grows;
      sound = subst (λ c. Sound n (at c)) (sym e) k.sound;
      follows = subst (λ c. Follows (at c) i c) (sym e) k.follows;
      sent = subst (λ c. All (λ o. Valid n (at c) (message_of o)) s.sent) (sym e) a;
      queue = subst (λ c. All (λ m. Valid n (at c) m.message) q) (sym e) k.queue;
      room = subst (λ c. c.op + length q < last_u64) (sym e) k.room;
      runs = x;
    }

    pub Kept-emit :
        (r : Replica) (o : Output)
        → Valid n (at (core r.state)) (message_of o)
        → Kept start r q
        → Kept start (emit o r) q
    Kept-emit r o v k =
        Kept-core r (emit o r) refl
          (Runs-Carries r (emit o r)
            (Carries-idle r (emit o r) refl (omega arith) (omega arith) (λ i p l. refl)) k.runs)
          (All-append (λ o. Valid n (at (core r.state)) (message_of o)) r.sent (o ∷ []) k.sent
            (v, tt))
          k

    Frame-core : {r s : Replica} → Frame r s → core s.state ≡ core r.state
    Frame-core f =
        ground (arith, f.id, f.fault_tolerance_f, f.status, f.view, f.op, f.commit, f.log)

    pub Kept-execute : (r : Replica) → Kept start r q → Kept start (execute_commited_ops r) q
    Kept-execute r k =
        Kept-core r (execute_commited_ops r) (Frame-core (execute_commited_ops-Frame r))
          (execute_commited_ops-Runs r (omega (arith, k.follows.op, k.sound.fits))
            (λ j l. k.follows.outside j (inr l)) k.runs)
          (execute_commited_ops-sent (λ o. Valid n (at (core r.state)) (message_of o)) r
            (λ connection m c v. reply-Valid n _ m c (v ∙ k.follows.view)) k.sent)
          k
