-- ===== src/Replica/Recovery/Best.antt =====
-- The best of the responses to a recovering replica.
use vsr_kv.Common.{
  ◌≤◌, ◌<◌, ◌≡◌, refl, sym, subst, ◌⊎◌, inl, inr, List, [], ◌∷◌, map, foldl, arith, All,
}
use vsr_kv.Utilities.{U128}
use vsr_kv.Message.{VsrMessage}
use vsr_kv.ReplicaState.{ReplicaState}
use vsr_kv.Replica.Recovery.{recovery_response_message, better_response}

-- In an earlier view than the other, or in the same and with no more operations.
abbrev pub NotAfter : ReplicaState → ReplicaState → Type 0
NotAfter best s = (s.view < best.view) ⊎ ((s.view ≡ best.view) × (s.op ≤ best.op))

abbrev pub OneOf : (ReplicaState → Type 0) → List ReplicaState → Type 0
OneOf P [] = ⊥
OneOf P (s ∷ ss) = P s ⊎ OneOf P ss

pub OneOf-All :
    (P R : ReplicaState → Type 0) (ss : List ReplicaState)
    → All R ss
    → OneOf P ss
    → OneOf (λ s. R s × P s) ss
OneOf-All P R [] a p = elim p [ ]
OneOf-All P R (s ∷ ss) a (inl p) = inl (a.0, p)
OneOf-All P R (s ∷ ss) a (inr p) = inr (OneOf-All P R ss a.1 p)

NotAfter-trans : (a b c : ReplicaState) → NotAfter b a → NotAfter c b → NotAfter c a
NotAfter-trans a b c h k = ground arith

pub OneOf-map :
    (P Q : ReplicaState → Type 0) (ss : List ReplicaState)
    → ((s : ReplicaState) → P s → Q s)
    → OneOf P ss
    → OneOf Q ss
OneOf-map P Q [] f p = elim p [ ]
OneOf-map P Q (s ∷ ss) f (inl p) = inl (f s p)
OneOf-map P Q (s ∷ ss) f (inr p) = inr (OneOf-map P Q ss f p)

better_response_cases :
    (a b : VsrMessage)
    → ((better_response a b ≡ a)
        × ((b.header.view < a.header.view)
            ⊎ ((b.header.view ≡ a.header.view) × (b.header.op ≤ a.header.op))))
      ⊎ ((better_response a b ≡ b)
          × ((a.header.view < b.header.view)
              ⊎ ((a.header.view ≡ b.header.view) × (a.header.op ≤ b.header.op))))
unfolding better_response
better_response_cases a b = ground arith

second_too :
    (P : ReplicaState → Type 0) (a b : ReplicaState) (ss : List ReplicaState)
    → OneOf P (a ∷ ss)
    → OneOf P (a ∷ b ∷ ss)
second_too P a b ss (inl p) = inl p
second_too P a b ss (inr p) = inr (inr p)

module _ (nonce : U128) where
  abbrev pub response : ReplicaState → VsrMessage
  response s = recovery_response_message nonce s

  better_cases :
      (a b : ReplicaState)
      → ((better_response (response a) (response b) ≡ response a) × NotAfter a b)
        ⊎ ((better_response (response a) (response b) ≡ response b) × NotAfter b a)
  unfolding recovery_response_message
  better_cases a b = better_response_cases (response a) (response b)

  -- The loop over the responses ends at the response of one of the senders, after which no other
  -- comes.
  abbrev pub Chosen : VsrMessage → List ReplicaState → ReplicaState → Type 0
  Chosen chosen senders best = (chosen ≡ response best) × All (NotAfter best) senders

  abbrev ChosenFrom : List ReplicaState → List ReplicaState → VsrMessage → Type 0
  ChosenFrom rest senders m =
      OneOf (Chosen (foldl better_response m (map response rest)) senders) senders

  pub choose :
      (first : ReplicaState) (rest : List ReplicaState)
      → let senders = first ∷ rest in
        OneOf (Chosen (foldl better_response (response first) (map response rest)) senders) senders
  choose first [] = inl (refl, (inr (refl, omega arith), tt))
  choose first (s ∷ rest) = elim (better_cases first s) [
    | inl (e, h) ↦ subst (ChosenFrom rest (first ∷ s ∷ rest)) (sym e) (
        second_too _ first s rest (
          OneOf-map _ _ (first ∷ rest)
            (λ best c. (c.0, (c.1.0, (NotAfter-trans s first best h c.1.0, c.1.1))))
            (choose first rest)))
    | inr (e, h) ↦ subst (ChosenFrom rest (first ∷ s ∷ rest)) (sym e) (
        inr (
          OneOf-map _ _ (s ∷ rest) (λ best c. (c.0, (NotAfter-trans first s best h c.1.0, c.1)))
            (choose s rest)))
  ]
