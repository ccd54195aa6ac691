-- ===== src/Utilities.antt =====
-- common/utilities.hpp: the 128-bit number as two halves, with `==` and `<`.
use vsr_kv.Common.{
  ℕ, ◌^◌, ◌<◌, ◌≡◌, ◌↔◌, Bool, true, false, not, ◌&&◌, arith, ltb, ◌==◌, if◌then◌else◌,
}
use vsr_kv.Common.Map.{Key}
use vsr_kv.Wire.Pod.{Pod, uint, pair, via}

pub record U128 : Type 0 where
  pub high : ℕ
  pub low : ℕ

-- `operator==`
unfoldable pub u128_eq : U128 → U128 → Bool
u128_eq a b = a.high == b.high && a.low == b.low

-- `operator<`
unfoldable pub u128_lt : U128 → U128 → Bool
u128_lt a b =
    if ltb a.high b.high then true else if ltb b.high a.high then false else ltb a.low b.low

abbrev pub zero_u128 : U128
zero_u128 = record { high = 0; low = 0 }

abbrev pub u64 : Pod ℕ
u64 = uint 8

abbrev pub u32 : Pod ℕ
u32 = uint 4

abbrev to_u128 : ℕ × ℕ → U128
to_u128 (h, l) = record { high = h; low = l }

abbrev of_u128 : U128 → ℕ × ℕ
of_u128 a = (a.high, a.low)

unfoldable pub u128 : Pod U128
unfolding pair via
u128 = via (pair u64 u64) to_u128 of_u128

pub u128_eq_iff : (a b : U128) → (u128_eq a b ≡ true) ↔ (a ≡ b)
unfolding u128_eq
u128_eq_iff a b = ground arith

-- A map keyed by these numbers tells two of them apart exactly when `==` does.
pub u128_equiv_iff : (a b : U128) → ((not (u128_lt a b) && not (u128_lt b a)) ≡ true) ↔ (a ≡ b)
unfolding u128_lt
u128_equiv_iff a b = ground arith

instance abbrev pub u128_key : Key U128
u128_key = record { lt = u128_lt; equiv_iff = u128_equiv_iff }

-- `operator<` is a strict order, as `std::map` requires of its comparison: it is transitive, and
-- of two numbers in order neither is equal to the other, nor the other way round.
pub u128_lt_trans :
    (a b c : U128)
    → u128_lt a b ≡ true
    → u128_lt b c ≡ true
    → (u128_lt a c ≡ true) × (u128_lt c a ≡ false) × (u128_eq a c ≡ false)
unfolding u128_lt u128_eq
u128_lt_trans a b c p q = ground arith

pub u128_fits : (a : U128) → a.high < 2 ^ 64 → a.low < 2 ^ 64 → u128.wrap a ≡ a
unfolding u128
u128_fits a h l = ground arith
