-- ===== src/Replica/ViewChange/Choice.antt =====
-- Which log the new primary takes over.
use vsr_kv.Common.{
  false, ℕ, ◌≤◌, ◌<◌, ◌≡◌, refl, ◌∙◌, ◌⊎◌, inl, inr, Bool, true, List, [], ◌∷◌, foldl, arith,
  Bool-cases, All,
}
use vsr_kv.Message.{VsrMessage}
use vsr_kv.Serialization.{DoViewChangePayload, deserialize_do_view_change}
use vsr_kv.Replica.{Env}
use vsr_kv.Replica.ViewChange.{
  improves, Selection, fresh_payload, first_selection, select, select_all,
}

-- What the new primary reads in a DoViewChange message, and whether it could read it whole.
abbrev pub payload_of : Env → VsrMessage → DoViewChangePayload
payload_of env m = (deserialize_do_view_change m.payload (fresh_payload env)).1

abbrev pub is_readable : Env → VsrMessage → Bool
is_readable env m = (deserialize_do_view_change m.payload (fresh_payload env)).0

-- The message's log is not preferable to the selected one: an earlier normal view, or the same
-- and no more operations.
abbrev pub NotBetter : Env → Selection → VsrMessage → Type 0
NotBetter env best m =
    ((payload_of env m).last_normal_view < best.best_payload.last_normal_view)
    ⊎ (((payload_of env m).last_normal_view ≡ best.best_payload.last_normal_view)
        × (m.header.op ≤ best.best_op))

pub record Covers (env : Env) (best : Selection) (m : VsrMessage) : Type 0 where
  pub log : NotBetter env best m
  pub commit : m.header.commit ≤ best.max_commit

abbrev pub CoversReadable : Env → Selection → VsrMessage → Type 0
CoversReadable env best m = (is_readable env m ≡ false) ⊎ Covers env best m

-- The selected log and operation number come from the message.
pub record From (env : Env) (best : Selection) (m : VsrMessage) : Type 0 where
  pub payload : best.best_payload ≡ payload_of env m
  pub op : best.best_op ≡ m.header.op

abbrev pub Some : (VsrMessage → Type 0) → List VsrMessage → Type 0
Some P [] = ⊥
Some P (m ∷ ms) = P m ⊎ Some P ms

select-Covers :
    (env : Env) (best : Selection) (m x : VsrMessage)
    → Covers env best x
    → Covers env (select env best m) x
unfolding select
select-Covers env best m x c = ground arith

select_readable :
    (env : Env) (best : Selection) (m : VsrMessage)
    → is_readable env m ≡ true
    → Covers env (select env best m) m
unfolding select
select_readable env best m r = ground arith

select_self :
    (env : Env) (best : Selection) (m : VsrMessage) → CoversReadable env (select env best m) m
select_self env best m = elim (Bool-cases (is_readable env m)) [
  | inr t ↦ inl t
  | inl t ↦ inr (select_readable env best m t)
]

pub select-From :
    (env : Env) (best : Selection) (m : VsrMessage)
    → From env (select env best m) m
      ⊎ ((select env best m).best_payload ≡ best.best_payload)
        × ((select env best m).best_op ≡ best.best_op)
unfolding select
select-From env best m = elim (Bool-cases (is_readable env m)) [
  | inr t ↦ inr (rw (t, select), rw (t, select))
  | inl t ↦ elim (Bool-cases (improves (payload_of env m) m.header.op best)) [
    | inl b ↦ inl (record { payload = rw (t, b, select); op = rw (t, b, select) })
    | inr b ↦ inr (rw (t, b, select), rw (t, b, select))
  ]
]

From-eq :
    (env : Env) (a b : Selection) (m : VsrMessage)
    → b.best_payload ≡ a.best_payload
    → b.best_op ≡ a.best_op
    → From env a m
    → From env b m
From-eq env a b m p o f = record { payload = p ∙ f.payload; op = o ∙ f.op }

foldl-Covers :
    (env : Env) (best : Selection) (ms : List VsrMessage) (x : VsrMessage)
    → Covers env best x
    → Covers env (foldl (select env) best ms) x
foldl-Covers env best [] x c = c
foldl-Covers env best (m ∷ ms) x c =
    foldl-Covers env (select env best m) ms x (select-Covers env best m x c)

foldl-CoversReadable :
    (env : Env) (best : Selection) (ms : List VsrMessage)
    → All (CoversReadable env (foldl (select env) best ms)) ms
foldl-CoversReadable env best [] = tt
foldl-CoversReadable env best (m ∷ ms) = (
  elim (select_self env best m) [
    | inl t ↦ inl t
    | inr c ↦ inr (foldl-Covers env (select env best m) ms m c)
  ],
  foldl-CoversReadable env (select env best m) ms,
)

foldl-From :
    (env : Env) (best : Selection) (x : VsrMessage) (ms : List VsrMessage)
    → From env best x
    → Some (From env (foldl (select env) best ms)) (x ∷ ms)
foldl-From env best x [] f = inl f
foldl-From env best x (m ∷ ms) f = elim (select-From env best m) [
  | inl g ↦ inr (foldl-From env (select env best m) m ms g)
  | inr (p, o) ↦
      elim (foldl-From env (select env best m) x ms
        (From-eq env best (select env best m) x p o f)) [ inl g ↦ inl g | inr g ↦ inr (inr g) ]
]

first_From : (env : Env) (commit : ℕ) (m : VsrMessage) → From env (first_selection env commit m) m
unfolding first_selection
first_From env commit m = record { payload = refl; op = refl }

first_Covers :
    (env : Env) (commit : ℕ) (m : VsrMessage) → Covers env (first_selection env commit m) m
unfolding first_selection
first_Covers env commit m = record { log = inr (refl, omega arith); commit = omega arith }

-- The selected log and operation number are those of one of the messages, and no message but an
-- unreadable one is of a later normal view, or of the same one and a higher operation number; the
-- selected commit number is at least that of each message, unreadable ones excepted.
pub select_all-Covers :
    (env : Env) (commit : ℕ) (first : VsrMessage) (rest : List VsrMessage)
    → Some (From env (select_all env commit first rest)) (first ∷ rest)
      × Covers env (select_all env commit first rest) first
      × All (CoversReadable env (select_all env commit first rest)) rest
unfolding select_all
select_all-Covers env commit first rest =
    let start = first_selection env commit first in
    (
      foldl-From env start first rest (first_From env commit first),
      foldl-Covers env start rest first (first_Covers env commit first),
      foldl-CoversReadable env start rest,
    )
