-- ===== src/Common/Map/Text.antt =====
-- Maps keyed by text: `operator<` of `std::string` compares byte by byte.
use mathlib.Core.Path.{◌≡◌, refl}
use mathlib.Core.Logic.{◌↔◌}
use mathlib.Core.Bool.{Bool, true, false, not, ◌&&◌, ◌||◌}
use mathlib.Core.List.{List, [], ◌∷◌}
use native.Mathlib.Omega.{arith}
use Prim.Native.Nat.{ℕ}
use vsr_kv.Common.Tests.{ltb, ◌==◌}
use vsr_kv.Common.Map.{Key}

unfoldable pub text_lt : List ℕ → List ℕ → Bool
text_lt s [] = false
text_lt [] (b ∷ t) = true
text_lt (a ∷ s) (b ∷ t) = ltb a b || (a == b && text_lt s t)

text_equiv→eq : (s t : List ℕ) → (not (text_lt s t) && not (text_lt t s)) ≡ true → s ≡ t
unfolding text_lt
text_equiv→eq [] [] h = refl
text_equiv→eq [] (b ∷ t) h = cc
text_equiv→eq (a ∷ s) [] h = cc
text_equiv→eq (a ∷ s) (b ∷ t) h = ground (arith, text_equiv→eq s t)

text_lt_irrefl : (s : List ℕ) → text_lt s s ≡ false
unfolding text_lt
text_lt_irrefl [] = refl
text_lt_irrefl (a ∷ s) = ground (arith, text_lt_irrefl s)

text_eq→equiv : (s t : List ℕ) → s ≡ t → (not (text_lt s t) && not (text_lt t s)) ≡ true
text_eq→equiv s t e = rw (e, text_lt_irrefl t)

pub text_equiv_iff : (s t : List ℕ) → ((not (text_lt s t) && not (text_lt t s)) ≡ true) ↔ (s ≡ t)
text_equiv_iff s t = (text_equiv→eq s t, text_eq→equiv s t)

instance abbrev pub text_key : Key (List ℕ)
text_key = record { lt = text_lt; equiv_iff = text_equiv_iff }
