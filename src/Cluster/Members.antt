-- ===== src/Cluster/Members.antt =====
-- The history of a cluster, and what holds of each of its replicas.
use vsr_kv.Common.{
  ℕ, ◌<◌, ◌≡◌, refl, sym, ap, subst, ◌∙◌, ◌≢◌, inl, inr, Bool, true, false, arith, ◌==◌,
  if◌then◌else◌, ==_iff, Bool-cases, All,
}
use mathlib.Core.Path.{fun_ext}
use vsr_kv.Replica.{Replica}
use vsr_kv.Cluster.{Cluster, update, message_of}
use vsr_kv.Cluster.History.{
  Core, core, History, Grows, Valid, Valid-mono, Follows, Follows-mono, Sound,
}
use vsr_kv.Cluster.Primary.{led}
use vsr_kv.Cluster.Backup.{beside}
use vsr_kv.Cluster.Runs.{Runs}
use vsr_kv.Cluster.Kept.{All-mono}

abbrev Cores : Type 0
Cores = ℕ → Core

abbrev pub cores : Cluster → Cores
cores c j = core (c j).state

abbrev history_of : Cores → History
history_of g = record { primary = g 0; held = λ j. (g j).op }

abbrev pub hist : Cluster → History
hist c = history_of (cores c)

abbrev set : Cores → ℕ → Core → Cores
set g i d j = if j == i then d else g j

-- The history where replica `i` has this state, and the others those of the cluster.
abbrev pub around : Cluster → ℕ → Core → History
around c i d = history_of (set (cores c) i d)

set-same : (g : Cores) (i : ℕ) → set g i (g i) ≡ g
set-same g i = fun_ext (λ j. elim (Bool-cases (j == i)) [
  | inl e ↦ rw (e) (ap g (sym ((==_iff j i).0 e)))
  | inr e ↦ rw e refl
])

set-other : (g : Cores) (i j : ℕ) (d : Core) → j ≢ i → set g i d j ≡ g j
set-other g i j d h = ground (arith, h)

ap2 : {A B C : Type 0} (f : A → B → C) {a a' : A} {b b' : B} → a ≡ a' → b ≡ b' → f a b ≡ f a' b'
ap2 f p q = cc

cores-update :
    (c : Cluster) (i : ℕ) (r : Replica) → cores (update c i r) ≡ set (cores c) i (core r.state)
cores-update c i r =
    fun_ext (λ j. elim (Bool-cases (j == i)) [ inl e ↦ rw e refl | inr e ↦ rw e refl ])

pub around_self : (c : Cluster) (i : ℕ) → around c i (core (c i).state) ≡ hist c
around_self c i = ap history_of (set-same (cores c) i)

pub around-update :
    (c : Cluster) (i : ℕ) (r : Replica) → around c i (core r.state) ≡ hist (update c i r)
around-update c i r = ap history_of (sym (cores-update c i r))

op-if : (b : Bool) (d e : Core) → (if b then d.op else e.op) ≡ (if b then d else e).op
op-if true d e = refl
op-if false d e = refl

pub led-around : (c : Cluster) → (λ d. led d (λ j. (c j).state.op)) ≡ around c 0
led-around c =
    fun_ext (λ d.
      ap (λ f. record { primary = d; held = f }) (fun_ext (λ j. op-if (j == 0) d (cores c j))))

pub beside-around :
    (c : Cluster) (i : ℕ) → i ≢ 0 → beside i (core (c 0).state) (λ j. (c j).state.op) ≡ around c i
beside-around c i h = fun_ext (λ d.
    ap2 (λ p f. record { primary = p; held = f }) (sym (set-other (cores c) i 0 d (λ e. h (sym e))))
      (fun_ext (λ j. op-if (j == i) d (cores c j))))

-- A replica of the cluster: its log, what it has sent, and what waits in its queue.
pub record Member (n : ℕ) (h : History) (i : ℕ) (r : Replica) : Type 0 where
  pub follows : Follows h i (core r.state)
  pub sent : All (λ o. Valid n h (message_of o)) r.sent
  pub queue : All (λ m. Valid n h m.message) r.message_queue
  pub runs : Runs r

pub record Inv (n f : ℕ) (c : Cluster) : Type 0 where
  pub sound : Sound n (hist c)
  pub fault : (c 0).state.fault_tolerance_f ≡ f
  pub members : (i : ℕ) → i < n → Member n (hist c) i (c i)

Member-mono :
    (n i : ℕ) (r : Replica) {h t : History}
    → Grows h t
    → t.held i ≡ h.held i
    → Member n h i r
    → Member n t i r
Member-mono n i r g e m = record {
  follows = Follows-mono i (core r.state) g e m.follows;
  sent = All-mono _ _ (λ o. Valid-mono n (message_of o) g) r.sent m.sent;
  queue = All-mono _ _ (λ m. Valid-mono n m.message g) r.message_queue m.queue;
  runs = m.runs;
}

update_self : (c : Cluster) (i : ℕ) (r : Replica) (j : ℕ) → (j == i) ≡ true → update c i r j ≡ r
update_self c i r j e = rw (e) refl

update-other : (c : Cluster) (i : ℕ) (r : Replica) (j : ℕ) → (j == i) ≡ false → update c i r j ≡ c j
update-other c i r j e = rw (e) refl

-- One replica changes.
pub update-Inv :
    (n f : ℕ) (c : Cluster) (i : ℕ) (r : Replica) (t : History)
    → t ≡ hist (update c i r)
    → Grows (hist c) t
    → Sound n t
    → Member n t i r
    → Inv n f c
    → Inv n f (update c i r)
update-Inv n f c i r t x g s m v = record {
  sound = subst (Sound n) x s;
  fault = sym (ap (λ h. h.primary.fault_tolerance_f) x) ∙ g.fault ∙ v.fault;
  members = λ j l.
      subst (λ t. Member n t j (update c i r j)) x
        (elim (Bool-cases (j == i)) [
          | inl e ↦
              subst (λ r. Member n t j r) (sym (update_self c i r j e))
                (subst (λ k. Member n t k r) (sym ((==_iff j i).0 e)) m)
          | inr e ↦
              let same : update c i r j ≡ c j = update-other c i r j e in
              subst (λ r. Member n t j r) (sym same)
                (Member-mono n j (c j) g (ap (λ h. h.held j) x ∙ ap (λ r. r.state.op) same)
                  (v.members j l))
        ]);
}
