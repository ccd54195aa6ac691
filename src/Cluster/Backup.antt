-- ===== src/Cluster/Backup.antt =====
-- What a backup does behind the history: it appends the entry of a Prepare, and follows the
-- primary's commit number.
use vsr_kv.Common.{
  ℕ, suc, ◌≤◌, ◌<◌, ◌≡◌, refl, sym, ap, ◌∙◌, ◌≢◌, List, [], ◌∷◌, arith, ℕ_discrete, ◌==◌,
  if◌then◌else◌, ==_refl, All,
}
use vsr_kv.Common.Map.{find, insert, nat_key, find-insert_self, find-insert_other}
use vsr_kv.Message.{VsrMessage}
use vsr_kv.Serialization.{Log}
use vsr_kv.Cluster.History.{
  Change, Core, bare, History, Grows, prepared_entry, PrepareHolds, Follows, Sound,
}

-- The history where replica `i` has this state.
abbrev pub beside : ℕ → Core → (ℕ → ℕ) → Core → History
beside i p held c = record { primary = p; held = λ j. if j == i then c.op else held j }

abbrev pub logged : VsrMessage → Core → Core
logged m c = record c { op = suc c.op; log = insert (suc c.op) (prepared_entry m) c.log }

-- The backup goes from one state to another.
abbrev pub Moves : ℕ → ℕ → Core → (ℕ → ℕ) → Core → Core → Type 0
Moves n i p held c d = Change n i (beside i p held) c d

Held-mono :
    (n k : ℕ) (h t : History) (acks : List ℕ)
    → ((j : ℕ) → h.held j ≤ t.held j)
    → All (λ j. (j < n) × (k ≤ h.held j)) acks
    → All (λ j. (j < n) × (k ≤ t.held j)) acks
Held-mono n k h t [] g a = tt
Held-mono n k h t (j ∷ acks) g a =
    (((a.0).0, omega (arith, (a.0).1, g j)), Held-mono n k h t acks g a.1)

module _ (n i : ℕ) (p : Core) (held : ℕ → ℕ) (c : Core) (s : Sound n (beside i p held c))
    (f : Follows (beside i p held c) i c) where
  held-le :
      (op : ℕ)
      → c.op ≤ op
      → (j : ℕ) → (if j == i then c.op else held j) ≤ (if j == i then op else held j)
  held-le op h j = ground arith

  Sound-moved : (d : Core) → c.op ≤ d.op → Sound n (beside i p held d)
  Sound-moved d h = record {
    fits = s.fits;
    full = s.full;
    keys = s.keys;
    commit = s.commit;
    acks = λ k e x.
        let (a, b) = s.acks k e x in
        (
          a,
          Held-mono n k (beside i p held c) (beside i p held d) e.prepare_ok_acks (held-le d.op h)
              b,
        );
    quorum = s.quorum;
  }

  grown : (d : Core) → c.op ≤ d.op → Grows (beside i p held c) (beside i p held d)
  grown d h = record {
    op = omega arith;
    commit = omega arith;
    fault = refl;
    entry = λ k b x. refl;
    held = held-le d.op h;
  }

  own : (op : ℕ) → (if i == i then op else held i) ≡ op
  own op = rw (==_refl i) refl

  pub logged-Moves :
      (m : VsrMessage)
      → PrepareHolds (beside i p held c) m
      → m.header.op ≡ suc c.op
      → Moves n i p held c (logged m c)
  logged-Moves m v e = record {
    grows = grown (logged m c) (omega arith);
    sound = Sound-moved (logged m c) (omega arith);
    follows = record {
      id = f.id;
      view = f.view;
      status = f.status;
      op = omega (arith, v.op);
      commit = f.commit;
      within = λ k b h. elim (ℕ_discrete k (suc c.op)) [
        | yes x ↦
            ap bare (ap (λ k. find k log) x ∙ find-insert_self (suc c.op) (prepared_entry m) c.log)
            ∙ sym v.entry
            ∙ ap (λ k. bare (find k p.log)) (e ∙ sym x)
        | no x ↦ ap bare (other k x) ∙ f.within k b (omega (arith, x))
      ];
      outside = λ k h. other k (ground arith) ∙ f.outside k (ground arith);
      held = own (suc c.op);
    };
  }
    where
      log : Log
      log = insert (suc c.op) (prepared_entry m) c.log

      other : (k : ℕ) → k ≢ suc c.op → find k log ≡ find k c.log
      other k h = find-insert_other (suc c.op) k (prepared_entry m) c.log h

  pub followed-Moves :
      (commit : ℕ) → commit ≤ p.commit → Moves n i p held c (record c { commit = commit })
  followed-Moves commit h = record {
    grows = grown (record c { commit = commit }) (omega arith);
    sound = Sound-moved (record c { commit = commit }) (omega arith);
    follows = record {
      id = f.id;
      view = f.view;
      status = f.status;
      op = f.op;
      commit = h;
      within = f.within;
      outside = f.outside;
      held = own c.op;
    };
  }
