-- ===== src/Common/IntSet.antt =====
-- `std::set<int>`, of which the program uses insertion, `size` and `clear`.
use mathlib.Core.Path.{◌≡◌, refl}
use mathlib.Core.Bool.{Bool, false, ◌||◌}
use mathlib.Core.List.{List, [], ◌∷◌}
use native.Mathlib.Omega.{arith}
use Prim.Native.Nat.{ℕ, ◌+◌, ◌<◌}
use mathlib.Core.Logic.{inl, inr}
use vsr_kv.Common.Tests.{◌==◌, ltb, if◌then◌else◌, Bool-cases}
use vsr_kv.Common.Lists.{length, All}

unfoldable pub contains : ℕ → List ℕ → Bool
contains a [] = false
contains a (b ∷ s) = a == b || contains a s

-- The elements stay in ascending order.
unfoldable pub add : ℕ → List ℕ → List ℕ
add a [] = a ∷ []
add a (b ∷ s) = if a == b then b ∷ s else if ltb a b then a ∷ b ∷ s else b ∷ add a s

pub contains-add : (a b : ℕ) (s : List ℕ) → contains b (add a s) ≡ (b == a || contains b s)
unfolding contains add
contains-add a b [] = refl
contains-add a b (c ∷ s) = ground (arith, contains-add a b s)

abbrev StartsAbove : ℕ → List ℕ → Type 0
StartsAbove a [] = Unit
StartsAbove a (b ∷ s) = a < b

abbrev pub IsAscending : List ℕ → Type 0
IsAscending [] = Unit
IsAscending (a ∷ s) = StartsAbove a s × IsAscending s

StartsAbove-add : (a b : ℕ) (s : List ℕ) → b < a → StartsAbove b s → StartsAbove b (add a s)
unfolding add
StartsAbove-add a b [] h k = h
StartsAbove-add a b (c ∷ s) h k = ground arith

pub add-IsAscending : (a : ℕ) (s : List ℕ) → IsAscending s → IsAscending (add a s)
unfolding add
add-IsAscending a [] h = (tt, tt)
add-IsAscending a (b ∷ s) h = ground (arith, add-IsAscending a s h.1, StartsAbove-add a b s)

contains_below : (a : ℕ) (s : List ℕ) → IsAscending s → StartsAbove a s → contains a s ≡ false
unfolding contains
contains_below a [] h k = refl
contains_below a (b ∷ []) h k = ground arith
contains_below a (b ∷ c ∷ s) h k = ground (arith, contains_below a (c ∷ s) h.1)

-- The size grows by the new elements only.
pub length-add :
    (a : ℕ) (s : List ℕ)
    → IsAscending s
    → length (add a s) ≡ (if contains a s then length s else length s + 1)
unfolding contains add
length-add a [] h = refl
length-add a (c ∷ s) h = ground (arith, length-add a s h.1, contains_below a (c ∷ s) h)

pub All-add : (P : ℕ → Type 0) (a : ℕ) (s : List ℕ) → P a → All P s → All P (add a s)
unfolding add
All-add P a [] p h = (p, tt)
All-add P a (b ∷ s) p h = elim (Bool-cases (a == b)) [
  | inl e ↦ rw e h
  | inr e ↦ elim (Bool-cases (ltb a b)) [
    | inl l ↦ rw (e, l) (p, h)
    | inr l ↦ rw (e, l) (h.0, All-add P a s p h.1)
  ]
]
