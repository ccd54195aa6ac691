-- ===== src/Replica/Commit/Quorum.antt =====
-- The commit number of the primary: what it passes, and where it stops.
use vsr_kv.Common.{
  dec_lt, ℕ, zero, suc, ◌-◌, ◌^◌, ◌≤◌, ◌<◌, ◌≡◌, ◌⊎◌, inl, inr, true, false, none, some, [], ◌∷◌,
  arith, ℕ_discrete, ltb, if◌then◌else◌, Bool-cases, Option-cases, length,
}
use vsr_kv.Common.Map.{find, nat_key}
use vsr_kv.Common.Map.Ascending.{KeysBelow, find-KeysBelow}
use vsr_kv.Serialization.{LogEntry, Log}
use vsr_kv.ReplicaState.{inc64}
use vsr_kv.Replica.Commit.{has_quorum, advance_loop}

-- The operation is in the log and enough replicas have acknowledged it.
abbrev pub Acknowledged : ℕ → Log → ℕ → Type 0
Acknowledged f log k = (entry : LogEntry) × (find k log ≡ some entry) × (has_quorum f entry ≡ true)

abbrev pub Blocked : ℕ → Log → ℕ → Type 0
Blocked f log k =
    (find k log ≡ none)
    ⊎ ((entry : LogEntry) × (find k log ≡ some entry) × (has_quorum f entry ≡ false))

-- The keys above a number.
abbrev count_above : ℕ → Log → ℕ
count_above c [] = 0
count_above c ((k, e) ∷ log) = if ltb c k then suc (count_above c log) else count_above c log

count_above-le : (c : ℕ) (log : Log) → count_above c log ≤ length log
count_above-le c [] = omega arith
count_above-le c (p ∷ log) = ground (arith, count_above-le c log)

count_above_mono : (c : ℕ) (log : Log) → count_above (suc c) log ≤ count_above c log
count_above_mono c [] = omega arith
count_above_mono c (p ∷ log) = ground (arith, count_above_mono c log)

count_above_found :
    (c : ℕ) (log : Log) (e : LogEntry)
    → find (suc c) log ≡ some e
    → count_above (suc c) log < count_above c log
unfolding find
count_above_found c [] e h = cc
count_above_found c ((k, x) ∷ log) e h =
    ground (arith, count_above_found c log e, count_above_mono c log)

-- A commit number for which the increment does not wrap.
abbrev pub last_u64 : ℕ
last_u64 = 2 ^ 64 - 1

inc64_lem : (c : ℕ) → c < last_u64 → inc64 c ≡ suc c
inc64_lem c h = omega arith

-- The decision of one round.
round_cases : (f : ℕ) (log : Log) (k : ℕ) → Blocked f log k ⊎ Acknowledged f log k
round_cases f log k = elim (Option-cases (find k log)) [
  | inl e ↦ inl (inl e)
  | inr (entry, e) ↦ elim (Bool-cases (has_quorum f entry)) [
    | inl q ↦ inr (entry, e, q)
    | inr q ↦ inl (inr (entry, e, q))
  ]
]

round_stops :
    (n f : ℕ) (log : Log) (c : ℕ) → Blocked f log (inc64 c) → advance_loop (suc n) f log c ≡ c
unfolding advance_loop
round_stops n f log c (inl e) = rw (e, advance_loop)
round_stops n f log c (inr (entry, e, q)) = rw (e, q, advance_loop)

round_goes :
    (n f : ℕ) (log : Log) (c : ℕ)
    → Acknowledged f log (inc64 c)
    → advance_loop (suc n) f log c ≡ advance_loop n f log (inc64 c)
unfolding advance_loop
round_goes n f log c (entry, e, q) = rw (e, q, advance_loop)

-- What is said of the commit number `d` that the loop reaches from `c`.
pub record Reached (f : ℕ) (log : Log) (c d : ℕ) : Type 0 where
  pub grows : c ≤ d
  pub acknowledged : (k : ℕ) → (k ≤ c) ⊎ (d < k) ⊎ Acknowledged f log k
  pub stops : Blocked f log (inc64 d)

Reached-here : (f : ℕ) (log : Log) (c : ℕ) → Blocked f log (inc64 c) → Reached f log c c
Reached-here f log c b = record {
  grows = omega arith;
  acknowledged = λ k. elim (dec_lt c k) [ yes h ↦ inr (inl h) | no h ↦ inl (omega arith) ];
  stops = b;
}

Reached-next :
    (f : ℕ) (log : Log) (c d : ℕ)
    → Acknowledged f log (suc c)
    → Reached f log (suc c) d
    → Reached f log c d
Reached-next f log c d a r = record {
  grows = omega (arith, r.grows);
  acknowledged = λ k. elim (ℕ_discrete k (suc c)) [
    | yes e ↦ inr (inr (rw e a))
    | no ne ↦ elim (r.acknowledged k) [ inl h ↦ inl (omega arith) | inr h ↦ inr h ]
  ];
  stops = r.stops;
}

advance_reaches :
    (n f : ℕ) (log : Log) (c : ℕ)
    → KeysBelow last_u64 log
    → c < last_u64
    → count_above c log ≤ n
    → Reached f log c (advance_loop n f log c)
advance_reaches zero f log c kb h m =
    unfold advance_loop in
    Reached-here f log c (elim (Option-cases (find (inc64 c) log)) [
      | inl e ↦ inl e
      | inr (entry, e) ↦
          absurd (omega (arith, count_above_found c log entry (rw (inc64_lem c h) at e)))
    ])
advance_reaches (suc n) f log c kb h m = elim (round_cases f log (inc64 c)) [
  | inl b ↦ rw (round_stops n f log c b) (Reached-here f log c b)
  | inr a ↦
      let e = inc64_lem c h in
      let a' : Acknowledged f log (suc c) = rw e at a in
      rw (round_goes n f log c a, e)
        (Reached-next f log c _ a' (
          advance_reaches n f log (suc c) kb (find-KeysBelow (suc c) last_u64 log a'.0 kb a'.1)
            (omega (arith, count_above_found c log a'.0 a'.1))))
]

-- The loop of `advance_primary_commit_number` never moves back, passes only operations that f + 1
-- replicas have acknowledged, and stops at the first one that is missing or short of
-- acknowledgements; the commit number and the keys of the log stay below the greatest
-- `uint64_t`.
pub advance_loop-Reached :
    (f : ℕ) (log : Log) (c : ℕ)
    → KeysBelow last_u64 log
    → c < last_u64
    → Reached f log c (advance_loop (length log) f log c)
advance_loop-Reached f log c kb h = advance_reaches (length log) f log c kb h (count_above-le c log)
