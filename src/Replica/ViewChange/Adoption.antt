-- ===== src/Replica/ViewChange/Adoption.antt =====
-- What the new primary takes over once it has a quorum of DoViewChange messages.
use vsr_kv.Common.{
  ℕ, ◌+◌, ◌≤◌, ◌<◌, max, ◌≡◌, refl, sym, ap, subst, ◌∙◌, ◌⊎◌, inl, inr, true, false, List, [], ◌∷◌,
  ◌++◌, foldl, arith, ltb, if◌then◌else◌, le→ltb, Bool-cases, length, All,
}
use vsr_kv.Message.{VsrMessage}
use vsr_kv.ReplicaState.{ReplicaState, ReplicaStatus}
use vsr_kv.Replica.{Replica, InboundMessage, Env}
use vsr_kv.Replica.Execute.Machine.{execute_commited_ops-Frame}
use vsr_kv.Replica.ViewChange.{
  Selection, first_selection, select, select_all, become_primary, handle_do_view_change,
}
use vsr_kv.Replica.ViewChange.Choice.{
  payload_of, is_readable, From, Some, Covers, CoversReadable, select_all-Covers,
}

-- The messages whose payload can be read.
abbrev pub readable : Env → List VsrMessage → List VsrMessage
readable env [] = []
readable env (m ∷ ms) = if is_readable env m then m ∷ readable env ms else readable env ms

-- The log of the one message is at least as good as that of the other: a later normal view, or
-- the same and no fewer operations.
abbrev pub AtLeast : Env → VsrMessage → VsrMessage → Type 0
AtLeast env chosen m =
    ((payload_of env m).last_normal_view < (payload_of env chosen).last_normal_view)
    ⊎ (((payload_of env m).last_normal_view ≡ (payload_of env chosen).last_normal_view)
        × (m.header.op ≤ chosen.header.op))

-- The state after the votes have been counted.
pub record Adopts (env : Env) (votes : List VsrMessage) (s t : ReplicaState) : Type 0 where
  pub chosen : VsrMessage
  pub is_vote : Some (λ m. chosen ≡ m) votes
  pub best : All (AtLeast env chosen) votes
  pub log : t.log ≡ (payload_of env chosen).log
  pub op : t.op ≡ chosen.header.op
  pub commit : All (λ m. m.header.commit ≤ t.commit) votes
  pub own_commit : s.commit ≤ t.commit
  pub commit_from : (t.commit ≡ s.commit) ⊎ Some (λ m. t.commit ≡ m.header.commit) votes
  pub status : t.status ≡ ReplicaStatus.normal
  pub view : t.view ≡ s.view

Some-member :
    (P : VsrMessage → Type 0) (ms : List VsrMessage)
    → Some P ms
    → (m : VsrMessage) × Some (λ x. m ≡ x) ms × P m
Some-member P [] x = elim x [ ]
Some-member P (m ∷ ms) (inl p) = (m, inl refl, p)
Some-member P (m ∷ ms) (inr s) = let (x, y, z) = Some-member P ms s in (x, inr y, z)

select_unreadable :
    (env : Env) (best : Selection) (m : VsrMessage)
    → is_readable env m ≡ false
    → select env best m ≡ best
unfolding select
select_unreadable env best m e = rw (e, select) refl

-- Messages that cannot be read do not count.
foldl-readable :
    (env : Env) (best : Selection) (ms : List VsrMessage)
    → foldl (select env) best ms ≡ foldl (select env) best (readable env ms)
foldl-readable env best [] = refl
foldl-readable env best (m ∷ ms) = elim (Bool-cases (is_readable env m)) [
  | inl e ↦ rw e (foldl-readable env (select env best m) ms)
  | inr e ↦ rw e (
      ap (λ b. foldl (select env) b ms) (select_unreadable env best m e)
      ∙ foldl-readable env best ms)
]

All-readable :
    (env : Env) (ms : List VsrMessage) → All (λ m. is_readable env m ≡ true) (readable env ms)
All-readable env [] = tt
All-readable env (m ∷ ms) = elim (Bool-cases (is_readable env m)) [
  | inl e ↦ rw e (e, All-readable env ms)
  | inr e ↦ rw e (All-readable env ms)
]

covered :
    (env : Env) (best : Selection) (ms : List VsrMessage)
    → All (λ m. is_readable env m ≡ true) ms
    → All (CoversReadable env best) ms
    → All (Covers env best) ms
covered env best [] r c = tt
covered env best (m ∷ ms) r c =
    (elim (c.0) [ inl e ↦ absurd (cc (e, r.0)) | inr x ↦ x ], covered env best ms r.1 c.1)

Covers-best :
    (env : Env) (best : Selection) (chosen : VsrMessage) (ms : List VsrMessage)
    → From env best chosen
    → All (Covers env best) ms
    → All (AtLeast env chosen) ms
Covers-best env best chosen [] f c = tt
Covers-best env best chosen (m ∷ ms) f c = (
  subst
      (λ p.
        ((payload_of env m).last_normal_view < p.last_normal_view)
        ⊎ (((payload_of env m).last_normal_view ≡ p.last_normal_view)
            × (m.header.op ≤ chosen.header.op)))
      f.payload
      (subst
        (λ o.
          ((payload_of env m).last_normal_view < best.best_payload.last_normal_view)
          ⊎ (((payload_of env m).last_normal_view ≡ best.best_payload.last_normal_view)
              × (m.header.op ≤ o)))
        f.op (c.0).log),
  Covers-best env best chosen ms f c.1,
)

Covers-commit :
    (env : Env) (best : Selection) (ms : List VsrMessage)
    → All (Covers env best) ms
    → All (λ m. m.header.commit ≤ best.max_commit) ms
Covers-commit env best [] c = tt
Covers-commit env best (m ∷ ms) c = ((c.0).commit, Covers-commit env best ms c.1)

max_cases : (a b : ℕ) → (max a b ≡ a) ⊎ (max a b ≡ b)
max_cases a b = ground arith

select-max_commit :
    (env : Env) (best : Selection) (m : VsrMessage)
    → (best.max_commit ≤ (select env best m).max_commit)
      × (((select env best m).max_commit ≡ best.max_commit)
          ⊎ ((select env best m).max_commit ≡ m.header.commit))
unfolding select
select-max_commit env best m = elim (Bool-cases (is_readable env m)) [
  | inl e ↦ rw (e, select) (omega arith, max_cases best.max_commit m.header.commit)
  | inr e ↦ rw (e, select) (omega arith, inl refl)
]

foldl-max_commit :
    (env : Env) (best : Selection) (ms : List VsrMessage)
    → let after = foldl (select env) best ms in
      (best.max_commit ≤ after.max_commit)
      × ((after.max_commit ≡ best.max_commit) ⊎ Some (λ m. after.max_commit ≡ m.header.commit) ms)
foldl-max_commit env best [] = (omega arith, inl refl)
foldl-max_commit env best (m ∷ ms) =
    let (l, e) = select-max_commit env best m in
    let (k, f) = foldl-max_commit env (select env best m) ms in
    (
      omega arith,
      elim f [
        | inr s ↦ inr (inr s)
        | inl g ↦ elim e [ inl h ↦ inl (g ∙ h) | inr h ↦ inr (inl (g ∙ h)) ]
      ],
    )

-- The replica has taken over a selection.
record Took (best : Selection) (s t : ReplicaState) : Type 0 where
  log : t.log ≡ best.best_payload.log
  op : t.op ≡ best.best_op
  commit : t.commit ≡ best.max_commit
  status : t.status ≡ ReplicaStatus.normal
  view : t.view ≡ s.view

become_primary-Took :
    (best : Selection) (r : Replica) → Took best r.state (become_primary best r).state
unfolding become_primary
become_primary-Took best r =
    let f = execute_commited_ops-Frame _ in
    record { log = f.log; op = f.op; commit = f.commit; status = f.status; view = f.view }

first_commit :
    (env : Env) (commit : ℕ) (m : VsrMessage)
    → (commit ≤ (first_selection env commit m).max_commit)
      × (((first_selection env commit m).max_commit ≡ commit)
          ⊎ ((first_selection env commit m).max_commit ≡ m.header.commit))
unfolding first_selection
first_commit env commit m = (omega arith, max_cases commit m.header.commit)

Took-Adopts :
    (env : Env) (first : VsrMessage) (rest : List VsrMessage) (s t : ReplicaState)
    → All (λ m. is_readable env m ≡ true) rest
    → Took (select_all env s.commit first rest) s t
    → Adopts env (first ∷ rest) s t
unfolding select_all
Took-Adopts env first rest s t r k =
    let best = select_all env s.commit first rest in
    let (from, c, cs) = select_all-Covers env s.commit first rest in
    let covers : All (Covers env best) (first ∷ rest) = (c, covered env best rest r cs) in
    let (chosen, is_vote, f) = Some-member (From env best) (first ∷ rest) from in
    let (l, e) = first_commit env s.commit first in
    let (m, g) = foldl-max_commit env (first_selection env s.commit first) rest in
    record {
      chosen = chosen;
      is_vote = is_vote;
      best = Covers-best env best chosen (first ∷ rest) f covers;
      log = k.log ∙ ap (λ p. p.log) f.payload;
      op = k.op ∙ f.op;
      commit =
          subst (λ n. All (λ m. m.header.commit ≤ n) (first ∷ rest)) (sym k.commit)
            (Covers-commit env best (first ∷ rest) covers);
      own_commit = omega (arith, l, m, k.commit);
      commit_from =
          subst (λ n. (n ≡ s.commit) ⊎ Some (λ m. n ≡ m.header.commit) (first ∷ rest))
            (sym k.commit)
            (elim g [
              | inr x ↦ inr (inr x)
              | inl x ↦ elim e [ inl y ↦ inl (x ∙ y) | inr y ↦ inr (inl (x ∙ y)) ]
            ]);
      status = k.status;
      view = k.view;
    }

quorum-take :
    (env : Env) (inbound : InboundMessage) (r : Replica) (first : VsrMessage)
    (rest : List VsrMessage)
    → r.state.do_view_change_received ++ (inbound.message ∷ []) ≡ first ∷ rest
    → r.state.fault_tolerance_f < length (first ∷ rest)
    → handle_do_view_change env inbound r
      ≡ become_primary (select_all env r.state.commit first rest) r
unfolding handle_do_view_change
quorum-take env inbound r first rest e q = rw (e, quorum, handle_do_view_change) refl
  where
    quorum : ltb (length (first ∷ rest)) (r.state.fault_tolerance_f + 1) ≡ false
    quorum = le→ltb _ _ (omega (arith, q))

select_all-readable :
    (env : Env) (commit : ℕ) (first : VsrMessage) (rest : List VsrMessage)
    → select_all env commit first rest ≡ select_all env commit first (readable env rest)
unfolding select_all
select_all-readable env commit first rest =
    foldl-readable env (first_selection env commit first) rest

-- The DoViewChange message that completes a quorum: the replica goes to normal operation in its
-- view with the log and the operation number of one of the messages, the best by normal view and
-- then by operation number, and with a commit number that is its own or that of a message, and
-- not below any of them. Those of the messages whose payload cannot be read have no part in
-- this, except the first one.
pub handle_do_view_change-Adopts :
    (env : Env) (inbound : InboundMessage) (r : Replica) (first : VsrMessage)
    (rest : List VsrMessage)
    → r.state.do_view_change_received ++ (inbound.message ∷ []) ≡ first ∷ rest
    → r.state.fault_tolerance_f < length (first ∷ rest)
    → Adopts env (first ∷ readable env rest) r.state (handle_do_view_change env inbound r).state
handle_do_view_change-Adopts env inbound r first rest e q =
    subst (λ t. Adopts env (first ∷ readable env rest) r.state t.state)
      (sym (
        quorum-take env inbound r first rest e q
        ∙ ap (λ b. become_primary b r) (select_all-readable env r.state.commit first rest)))
      (Took-Adopts env first (readable env rest) r.state _ (All-readable env rest)
        (become_primary-Took _ r))
