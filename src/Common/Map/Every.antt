-- ===== src/Common/Map/Every.antt =====
-- What holds of every entry of a map.
use vsr_kv.Common.{◌≡◌, sym, subst, inl, inr, true, some, [], ◌∷◌, Bool-cases, All}
use vsr_kv.Common.Map.{Key, Map, find, insert, erase, equiv}

module _ {K V : Type 0} ⦃key : Key K⦄ (P : K × V → Type 0) where
  pub insert-All : (k : K) (v : V) (m : Map K V) → P (k, v) → All P m → All P (insert k v m)
  unfolding insert
  insert-All k v [] p a = (p, tt)
  insert-All k v ((j, w) ∷ m) p a = elim (Bool-cases (equiv k j)) [
    | inl e ↦ rw e (subst (λ i. P (i, v)) ((key.equiv_iff k j).0 e) p, a.1)
    | inr e ↦ elim (Bool-cases (key.lt k j)) [
      | inl l ↦ rw (e, l) (p, (a.0, a.1))
      | inr l ↦ rw (e, l) (a.0, insert-All k v m p a.1)
    ]
  ]

  pub erase-All : (k : K) (m : Map K V) → All P m → All P (erase k m)
  unfolding erase
  erase-All k [] a = tt
  erase-All k ((j, w) ∷ m) a = elim (Bool-cases (equiv k j)) [
    | inl e ↦ rw e (a.1)
    | inr e ↦ rw e (a.0, erase-All k m a.1)
  ]

  pub find-All : (k : K) (v : V) (m : Map K V) → All P m → find k m ≡ some v → P (k, v)
  unfolding find
  find-All k v [] a h = cc
  find-All k v ((j, w) ∷ m) a h = elim (Bool-cases (equiv k j)) [
    | inl e ↦
        subst (λ i. P (i, v)) (sym ((key.equiv_iff k j).0 e))
          (subst (λ u. P (j, u)) (found e) (a.0))
    | inr e ↦ find-All k v m a.1 (rw e at h)
  ]
    where
      found : equiv k j ≡ true → w ≡ v
      found e = cc (e, h)
