-- ===== src/Cluster/History.antt =====
-- The log of the primary as the history that all replicas follow, and what a message says of it.
use vsr_kv.Common.{
  ℕ, ◌-◌, ◌^◌, ◌≤◌, ◌<◌, ◌≡◌, refl, sym, ◌∙◌, ◌⊎◌, true, Option, none, some, List, [], arith, All,
}
use vsr_kv.Common.Map.{find, nat_key}
use vsr_kv.Common.IntSet.{IsAscending}
use vsr_kv.Message.{VsrMessage, Command}
use vsr_kv.Serialization.{LogEntry, Log}
use vsr_kv.ReplicaState.{ReplicaState, ReplicaStatus}
use vsr_kv.Replica.Commit.{has_quorum}
use vsr_kv.Common.Map.Ascending.{KeysBelow}

-- The part of a state that execution and the client table leave alone.
pub record Core : Type 0 where
  pub id : ℕ
  pub fault_tolerance_f : ℕ
  pub status : ReplicaStatus
  pub view : ℕ
  pub op : ℕ
  pub commit : ℕ
  pub log : Log

abbrev pub core : ReplicaState → Core
core s = record {
  id = s.id;
  fault_tolerance_f = s.fault_tolerance_f;
  status = s.status;
  view = s.view;
  op = s.op;
  commit = s.commit;
  log = s.log;
}

-- An entry without its acknowledgements, which only the primary keeps.
abbrev pub bare : Option LogEntry → Option LogEntry
bare none = none
bare (some e) = some (record e { prepare_ok_acks = [] })

-- The primary, and how far each replica's log goes.
pub record History : Type 0 where
  pub primary : Core
  pub held : ℕ → ℕ

pub record Grows (h t : History) : Type 0 where
  pub op : h.primary.op ≤ t.primary.op
  pub commit : h.primary.commit ≤ t.primary.commit
  pub fault : t.primary.fault_tolerance_f ≡ h.primary.fault_tolerance_f
  pub entry :
      (k : ℕ) → 0 < k → k ≤ h.primary.op → bare (find k t.primary.log) ≡ bare (find k h.primary.log)
  pub held : (j : ℕ) → h.held j ≤ t.held j

pub Grows-refl : (h : History) → Grows h h
Grows-refl h = record {
  op = omega arith;
  commit = omega arith;
  fault = refl;
  entry = λ k a b. refl;
  held = λ j. omega arith;
}

pub Grows-trans : {h t u : History} → Grows h t → Grows t u → Grows h u
Grows-trans f g = record {
  op = omega (arith, f.op, g.op);
  commit = omega (arith, f.commit, g.commit);
  fault = g.fault ∙ f.fault;
  entry = λ k a b. g.entry k a (omega (arith, f.op)) ∙ f.entry k a b;
  held = λ j. omega (arith, f.held j, g.held j);
}

-- The entry that a Prepare carries.
abbrev pub prepared_entry : VsrMessage → LogEntry
prepared_entry m = record {
  view = 0;
  op_type = m.header.operation;
  client_id = m.header.client;
  request_num = m.header.request;
  payload = m.payload;
  prepare_ok_acks = [];
}

-- A Prepare carries an entry of the history, a PrepareOk is sent by a replica that holds the
-- operation, and a commit number is not ahead of the primary's.
pub record PrepareHolds (h : History) (m : VsrMessage) : Type 0 where
  pub positive : 0 < m.header.op
  pub op : m.header.op ≤ h.primary.op
  pub commit : m.header.commit ≤ h.primary.commit
  pub entry : bare (find m.header.op h.primary.log) ≡ some (prepared_entry m)

abbrev pub Holds : Command → ℕ → History → VsrMessage → Type 0
Holds Command.ping n h m = Unit
Holds Command.pong n h m = Unit
Holds Command.request n h m = Unit
Holds Command.reply n h m = Unit
Holds Command.prepare n h m = PrepareHolds h m
Holds Command.prepare_ok n h m = (m.header.replica < n) × (m.header.op ≤ h.held m.header.replica)
Holds Command.commit n h m = m.header.commit ≤ h.primary.commit
Holds _ n h m = ⊥

abbrev pub Valid : ℕ → History → VsrMessage → Type 0
Valid n h m = (m.header.view ≡ 0) × Holds m.header.command n h m

Holds-mono :
    (n : ℕ) (c : Command) {h t : History} (m : VsrMessage)
    → Grows h t
    → Holds c n h m
    → Holds c n t m
Holds-mono n Command.ping m g v = tt
Holds-mono n Command.pong m g v = tt
Holds-mono n Command.request m g v = tt
Holds-mono n Command.reply m g v = tt
Holds-mono n Command.prepare m g v = record {
  positive = v.positive;
  op = omega (arith, v.op, g.op);
  commit = omega (arith, v.commit, g.commit);
  entry = g.entry m.header.op v.positive v.op ∙ v.entry;
}
Holds-mono n Command.prepare_ok m g v = (v.0, omega (arith, v.1, g.held m.header.replica))
Holds-mono n Command.commit m g v = omega (arith, g.commit)
Holds-mono n _ m g v = v

pub Valid-mono : (n : ℕ) {h t : History} (m : VsrMessage) → Grows h t → Valid n h m → Valid n t m
Valid-mono n m g v = (v.0, Holds-mono n m.header.command m g v.1)

-- A replica in view 0 whose log is the history up to its operation number.
pub record Follows (h : History) (i : ℕ) (c : Core) : Type 0 where
  pub id : c.id ≡ i
  pub view : c.view ≡ 0
  pub status : c.status ≡ ReplicaStatus.normal
  pub op : c.op ≤ h.primary.op
  pub commit : c.commit ≤ h.primary.commit
  pub within : (k : ℕ) → 0 < k → k ≤ c.op → bare (find k c.log) ≡ bare (find k h.primary.log)
  pub outside : (k : ℕ) → (k ≡ 0) ⊎ (c.op < k) → find k c.log ≡ none
  pub held : h.held i ≡ c.op

-- The history may grow, as long as what this replica holds is recorded as before.
pub Follows-mono :
    (i : ℕ) (c : Core) {h t : History}
    → Grows h t
    → t.held i ≡ h.held i
    → Follows h i c
    → Follows t i c
Follows-mono i c g e f = record {
  id = f.id;
  view = f.view;
  status = f.status;
  op = omega (arith, f.op, g.op);
  commit = omega (arith, f.commit, g.commit);
  within = λ k a b. f.within k a b ∙ sym (g.entry k a (omega (arith, f.op)));
  outside = f.outside;
  held = e ∙ f.held;
}

-- The acknowledgements of an entry.
abbrev pub Held : ℕ → History → ℕ → List ℕ → Type 0
Held n h k acks = IsAscending acks × All (λ j. (j < n) × (k ≤ h.held j)) acks

-- The log of the primary: every operation has an entry, each acknowledgement is that of a replica
-- which holds the operation, and what is committed has a quorum of them.
pub record Sound (n : ℕ) (h : History) : Type 0 where
  pub fits : h.primary.op < 2 ^ 64 - 1
  pub full : (k : ℕ) → 0 < k → k ≤ h.primary.op → (e : LogEntry) × (find k h.primary.log ≡ some e)
  pub keys : KeysBelow (2 ^ 64 - 1) h.primary.log
  pub commit : h.primary.commit ≤ h.primary.op
  pub acks : (k : ℕ) (e : LogEntry) → find k h.primary.log ≡ some e → Held n h k e.prepare_ok_acks
  pub quorum :
      (k : ℕ)
      → 0 < k
      → k ≤ h.primary.commit
      → (e : LogEntry) × (find k h.primary.log ≡ some e)
        × (has_quorum h.primary.fault_tolerance_f e ≡ true)

-- Replica `i` goes from one state to another, where `at` is the history for each of its states.
pub record Change (n i : ℕ) (at : Core → History) (c d : Core) : Type 0 where
  pub grows : Grows (at c) (at d)
  pub sound : Sound n (at d)
  pub follows : Follows (at d) i d
