-- ===== src/Common/Map.antt =====
-- `std::map`: the entries in the order of the keys. As in C++ two keys are the same when
-- neither is less than the other.
pub mod Ascending
pub mod Every
pub mod Text
use mathlib.Core.Path.{◌≡◌, refl}
use mathlib.Core.Logic.{◌↔◌, ◌≢◌, ◌⊎◌, inl, inr}
use mathlib.Core.Bool.{Bool, true, not, ◌&&◌}
use mathlib.Core.Option.{Option, none, some}
use mathlib.Core.List.{List, [], ◌∷◌}
use native.Mathlib.Omega.{arith}
use Prim.Native.Nat.{ℕ}
use vsr_kv.Common.Tests.{Bool-cases, ltb, if◌then◌else◌}

-- The order that a map is built over.
pub record Key (K : Type 0) : Type 0 where
  pub lt : K → K → Bool
  pub equiv_iff : (a b : K) → ((not (lt a b) && not (lt b a)) ≡ true) ↔ (a ≡ b)

abbrev pub equiv : {K : Type 0} ⦃key : Key K⦄ → K → K → Bool
equiv ⦃key⦄ a b = not (key.lt a b) && not (key.lt b a)

pub nat_equiv_iff : (a b : ℕ) → ((not (ltb a b) && not (ltb b a)) ≡ true) ↔ (a ≡ b)
nat_equiv_iff a b = ground arith

instance abbrev pub nat_key : Key ℕ
nat_key = record { lt = ltb; equiv_iff = nat_equiv_iff }

abbrev pub Map : Type 0 → Type 0 → Type 0
Map K V = List (K × V)

pub key_cases : {K : Type 0} ⦃key : Key K⦄ (i j : K) → (i ≡ j) ⊎ (i ≢ j)
key_cases ⦃key⦄ i j = elim (Bool-cases (equiv i j)) [
  | inl e ↦ inl ((key.equiv_iff i j).0 e)
  | inr e ↦ inr (λ h. cc ((key.equiv_iff i j).1 h, e))
]

module _ {K V : Type 0} ⦃key : Key K⦄ where
  unfoldable pub find : K → Map K V → Option V
  find k [] = none
  find k ((j, v) ∷ m) = if equiv k j then some v else find k m

  -- `m[k] = v`
  unfoldable pub insert : K → V → Map K V → Map K V
  insert k v [] = (k, v) ∷ []
  insert k v ((j, w) ∷ m) =
      if equiv k j
      then (j, v) ∷ m
      else if key.lt k j
      then (k, v) ∷ (j, w) ∷ m
      else (j, w) ∷ insert k v m

  -- `m.erase(k)`
  unfoldable pub erase : K → Map K V → Map K V
  erase k [] = []
  erase k ((j, v) ∷ m) = if equiv k j then m else (j, v) ∷ erase k m

  pub find-insert :
      (k j : K) (v : V) (m : Map K V)
      → find j (insert k v m) ≡ (if equiv j k then some v else find j m)
  unfolding find insert
  find-insert k j v [] = refl
  find-insert k j v ((i, w) ∷ m) =
      ground (arith, key.equiv_iff j k, key.equiv_iff k i, key.equiv_iff j i, find-insert k j v m)

  pub find-erase_other : (k j : K) (m : Map K V) → j ≢ k → find j (erase k m) ≡ find j m
  unfolding find erase
  find-erase_other k j [] h = refl
  find-erase_other k j ((i, w) ∷ m) h =
      ground (arith, key.equiv_iff j i, key.equiv_iff k i, find-erase_other k j m h)

  pub find-insert_self : (k : K) (v : V) (m : Map K V) → find k (insert k v m) ≡ some v
  find-insert_self k v m = rw (find-insert k k v m, (key.equiv_iff k k).1 refl)

  pub find-insert_other : (k j : K) (v : V) (m : Map K V) → j ≢ k → find j (insert k v m) ≡ find j m
  find-insert_other k j v m h = rw (find-insert k j v m) (ground (arith, key.equiv_iff j k))
