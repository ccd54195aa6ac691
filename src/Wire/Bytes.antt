-- ===== src/Wire/Bytes.antt =====
-- The object representation of the unsigned integers, as on the little-endian targets of the
-- program: `std::memcpy` copies these bytes.
use native.Mathlib.Nat.{mod-eq-sub-div-mul, div-div-eq-div-mul, div-add-mod, pow-suc, mul_comm}
use vsr_kv.Common.{
  ℕ, zero, suc, ◌+◌, ◌*◌, ◌/◌, ◌%◌, ◌^◌, ◌<◌, ◌≡◌, refl, ap, ◌∙◌, List, [], ◌∷◌, arith, length, All,
}

abbrev pub IsByte : ℕ → Type 0
IsByte b = b < 256

-- The `n` bytes of `v`, lowest first.
unfoldable pub to_bytes : ℕ → ℕ → List ℕ
to_bytes zero v = []
to_bytes (suc n) v = (v % 256) ∷ to_bytes n (v / 256)

unfoldable pub of_bytes : List ℕ → ℕ
of_bytes [] = 0
of_bytes (b ∷ bs) = b + 256 * of_bytes bs

split_mod : (v m : ℕ) → v % (256 * m) ≡ v % 256 + 256 * (v / 256 % m)
split_mod v m = omega (
  arith,
  mod-eq-sub-div-mul v (256 * m),
  div-div-eq-div-mul v 256 m,
  div-add-mod (v / 256) m,
  ap (λ (t : ℕ). t * (256 * m)) (div-div-eq-div-mul v 256 m),
)

pow_256 : (n : ℕ) → 256 ^ suc n ≡ 256 * 256 ^ n
pow_256 n = pow-suc 256 n ∙ mul_comm (256 ^ n) 256

-- Reading back gives the value that fits into `n` bytes.
pub of_bytes-to_bytes : (n v : ℕ) → of_bytes (to_bytes n v) ≡ v % 256 ^ n
unfolding of_bytes to_bytes
of_bytes-to_bytes zero v = omega arith
of_bytes-to_bytes (suc n) v =
    omega (
      arith,
      of_bytes-to_bytes n (v / 256),
      split_mod v (256 ^ n),
      ap (λ (t : ℕ). v % t) (pow_256 n),
    )

pub length-to_bytes : (n v : ℕ) → length (to_bytes n v) ≡ n
unfolding to_bytes
length-to_bytes zero v = refl
length-to_bytes (suc n) v = ap suc (length-to_bytes n (v / 256))

pub to_bytes-IsByte : (n v : ℕ) → All IsByte (to_bytes n v)
unfolding to_bytes
to_bytes-IsByte zero v = tt
to_bytes-IsByte (suc n) v = (omega arith, to_bytes-IsByte n (v / 256))

pub of_bytes_bound : (bs : List ℕ) → All IsByte bs → of_bytes bs < 256 ^ length bs
unfolding of_bytes
of_bytes_bound [] h = omega arith
of_bytes_bound (b ∷ bs) h = omega (arith, of_bytes_bound bs h.1, pow_256 (length bs))
