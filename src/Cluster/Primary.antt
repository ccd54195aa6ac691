-- ===== src/Cluster/Primary.antt =====
-- What the primary does to the history: it appends an entry, counts an acknowledgement, and moves
-- its commit number.
use vsr_kv.Common.{
  ℕ, suc, ◌-◌, ◌^◌, ◌≤◌, ◌<◌, ◌≡◌, refl, sym, ap, subst, ◌∙◌, ◌≢◌, inl, inr, true, some, List, [],
  ◌∷◌, arith, ℕ_discrete, dec_lt, ◌==◌, if◌then◌else◌, All,
}
use vsr_kv.Common.Map.{find, insert, nat_key, find-insert_self, find-insert_other}
use vsr_kv.Common.Map.Ascending.{insert-KeysBelow, find-KeysBelow}
use vsr_kv.Common.IntSet
use vsr_kv.Serialization.{LogEntry, Log}
use vsr_kv.Replica.Commit.{has_quorum}
use vsr_kv.Replica.Commit.Quorum.{Reached}
use vsr_kv.Cluster.History.{Change, Held, Core, bare, History, Follows, Sound}

-- The history of a cluster whose primary has this state.
abbrev pub led : Core → (ℕ → ℕ) → History
led c held = record { primary = c; held = λ j. if j == 0 then c.op else held j }

-- The primary goes from one state to another.
abbrev pub Advances : ℕ → (ℕ → ℕ) → Core → Core → Type 0
Advances n held c d = Change n 0 (λ c. led c held) c d

acks_of : {d e : LogEntry} → some d ≡ some e → d.prepare_ok_acks ≡ e.prepare_ok_acks
acks_of h = cc

quorum_of :
    {d e : LogEntry} (g : ℕ) → some d ≡ some e → has_quorum g d ≡ true → has_quorum g e ≡ true
quorum_of g h q = cc

module _ (n : ℕ) (held : ℕ → ℕ) (c : Core) (s : Sound n (led c held))
    (f : Follows (led c held) 0 c) where
  held-le :
      (op : ℕ)
      → c.op ≤ op
      → (j : ℕ) → (if j == 0 then c.op else held j) ≤ (if j == 0 then op else held j)
  held-le op h j = ground arith

  acks_mono :
      (k op : ℕ) (acks : List ℕ)
      → c.op ≤ op
      → All (λ j. (j < n) × (k ≤ (if j == 0 then c.op else held j))) acks
      → All (λ j. (j < n) × (k ≤ (if j == 0 then op else held j))) acks
  acks_mono k op [] h a = tt
  acks_mono k op (j ∷ acks) h a =
      (((a.0).0, omega (arith, (a.0).1, held-le op h j)), acks_mono k op acks h a.1)

  abbrev pub appended : LogEntry → Core
  appended e = record c { op = suc c.op; log = insert (suc c.op) e c.log }

  pub appended-Advances :
      (e : LogEntry)
      → 0 < n
      → e.prepare_ok_acks ≡ 0 ∷ []
      → suc c.op < 2 ^ 64 - 1
      → Advances n held c (appended e)
  appended-Advances e p a l = record {
    grows = record {
      op = omega arith;
      commit = omega arith;
      fault = refl;
      entry = λ k b h. ap bare (other k (omega arith));
      held = held-le (suc c.op) (omega arith);
    };
    sound = record {
      fits = l;
      full = λ k b h. elim (ℕ_discrete k (suc c.op)) [
        | yes x ↦ (e, ap (λ i. find i log) x ∙ find-insert_self (suc c.op) e c.log)
        | no x ↦ let (e', y) = s.full k b (omega (arith, x)) in (e', other k x ∙ y)
      ];
      keys = insert-KeysBelow (2 ^ 64 - 1) (suc c.op) e c.log l s.keys;
      commit = omega (arith, s.commit);
      acks = λ k e' h. elim (ℕ_discrete k (suc c.op)) [
        | yes x ↦
            let same : some e ≡ some e' =
              sym (find-insert_self (suc c.op) e c.log) ∙ ap (λ i. find i log) (sym x) ∙ h in
            subst (Held n (led (appended e) held) k) (sym a ∙ acks_of same)
              ((tt, tt), ((p, omega (arith, x)), tt))
        | no x ↦
            let (u, v) = s.acks k e' (sym (other k x) ∙ h) in
            (u, acks_mono k (suc c.op) e'.prepare_ok_acks (omega arith) v)
      ];
      quorum = λ k b h.
          let (e', y, q) = s.quorum k b h in (e', other k (omega (arith, s.commit)) ∙ y, q);
    };
    follows = record {
      id = f.id;
      view = f.view;
      status = f.status;
      op = omega arith;
      commit = omega arith;
      within = λ k b h. refl;
      outside = λ k h. other k (ground arith) ∙ f.outside k (ground arith);
      held = refl;
    };
  }
    where
      log : Log
      log = insert (suc c.op) e c.log

      other : (k : ℕ) → k ≢ suc c.op → find k log ≡ find k c.log
      other k h = find-insert_other (suc c.op) k e c.log h

  abbrev pub acked : ℕ → ℕ → LogEntry → Core
  acked k j e = record c {
    log = insert k (record e { prepare_ok_acks = IntSet.add j e.prepare_ok_acks }) c.log;
  }

  has_quorum-add :
      (g j : ℕ) (e : LogEntry)
      → IntSet.IsAscending e.prepare_ok_acks
      → has_quorum g e ≡ true
      → has_quorum g (record e { prepare_ok_acks = IntSet.add j e.prepare_ok_acks }) ≡ true
  unfolding has_quorum
  has_quorum-add g j e a q = ground (arith, IntSet.length-add j e.prepare_ok_acks a)

  pub acked-Advances :
      (k j : ℕ) (e : LogEntry)
      → find k c.log ≡ some e
      → j < n
      → k ≤ (led c held).held j
      → Advances n held c (acked k j e)
  acked-Advances k j e h l m = record {
    grows = record {
      op = omega arith;
      commit = omega arith;
      fault = refl;
      entry = λ i b x. elim (ℕ_discrete i k) [
        | yes y ↦ ap bare (here i y) ∙ sym (ap bare (ap (λ i. find i c.log) y ∙ h))
        | no y ↦ ap bare (other i y)
      ];
      held = λ i. omega arith;
    };
    sound = record {
      fits = s.fits;
      full = λ i b x. elim (ℕ_discrete i k) [
        | yes y ↦ (more, here i y)
        | no y ↦ let (e', z) = s.full i b x in (e', other i y ∙ z)
      ];
      keys =
          insert-KeysBelow (2 ^ 64 - 1) k more c.log
            (find-KeysBelow k (2 ^ 64 - 1) c.log e s.keys h) s.keys;
      commit = s.commit;
      acks = λ i e' x. elim (ℕ_discrete i k) [
        | yes y ↦
            let (a, b) = s.acks k e h in
            subst (Held n (led (acked k j e) held) i) (acks_of (sym (here i y) ∙ x)) (
              IntSet.add-IsAscending j e.prepare_ok_acks a,
              subst
                  (λ k.
                    All (λ j. (j < n) × (k ≤ (led c held).held j)) (IntSet.add j e.prepare_ok_acks))
                  (sym y) (IntSet.All-add _ j e.prepare_ok_acks (l, m) b),
            )
        | no y ↦ s.acks i e' (sym (other i y) ∙ x)
      ];
      quorum = λ i b x. elim (ℕ_discrete i k) [
        | yes y ↦ (
          more,
          here i y,
          let (e', z, q) = s.quorum i b x in
              let found : some e' ≡ some e = sym z ∙ ap (λ i. find i c.log) y ∙ h in
              has_quorum-add c.fault_tolerance_f j e (s.acks k e h).0
                (quorum_of c.fault_tolerance_f found q),
        )
        | no y ↦ let (e', z, q) = s.quorum i b x in (e', other i y ∙ z, q)
      ];
    };
    follows = record {
      id = f.id;
      view = f.view;
      status = f.status;
      op = omega arith;
      commit = omega arith;
      within = λ i b x. refl;
      outside = λ i x. other i (λ y. cc (f.outside i x, h)) ∙ f.outside i x;
      held = refl;
    };
  }
    where
      more : LogEntry
      more = record e { prepare_ok_acks = IntSet.add j e.prepare_ok_acks }

      log : Log
      log = insert k more c.log

      here : (i : ℕ) → i ≡ k → find i log ≡ some more
      here i y = ap (λ i. find i log) y ∙ find-insert_self k more c.log

      other : (i : ℕ) → i ≢ k → find i log ≡ find i c.log
      other i y = find-insert_other k i more c.log y

  abbrev pub committed : ℕ → Core
  committed d = record c { commit = d }

  pub committed-Advances :
      (d : ℕ) → Reached c.fault_tolerance_f c.log c.commit d → Advances n held c (committed d)
  committed-Advances d r = record {
    grows = record {
      op = omega arith;
      commit = r.grows;
      fault = refl;
      entry = λ k b h. refl;
      held = λ i. omega arith;
    };
    sound = record {
      fits = s.fits;
      full = s.full;
      keys = s.keys;
      commit = elim (r.acknowledged d) [
        | inl h ↦ omega (arith, h, s.commit)
        | inr (inl h) ↦ absurd (omega (arith, h))
        | inr (inr (e, h, q)) ↦ elim (dec_lt c.op d) [
          | yes l ↦ absurd (cc (f.outside d (inr l), h))
          | no l ↦ omega (arith, l)
        ]
      ];
      acks = s.acks;
      quorum = λ k b h. elim (r.acknowledged k) [
        | inl l ↦ s.quorum k b l
        | inr (inl l) ↦ absurd (omega (arith, l))
        | inr (inr (e, x, q)) ↦ (e, x, q)
      ];
    };
    follows = record {
      id = f.id;
      view = f.view;
      status = f.status;
      op = omega arith;
      commit = omega arith;
      within = λ k b h. refl;
      outside = f.outside;
      held = refl;
    };
  }
