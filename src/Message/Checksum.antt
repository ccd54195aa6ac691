-- ===== src/Message/Checksum.antt =====
-- common/checksum.cpp over BLAKE3, which is a library of its own: its digest is a parameter.
use vsr_kv.Common.{
  All-take, All-drop, ℕ, ◌^◌, ◌<◌, ◌≡◌, subst, List, arith, length, take, drop, All, length-drop,
  length-take_of_le,
}
use vsr_kv.Utilities.{U128, u128}
use vsr_kv.Wire.Bytes.{of_bytes, of_bytes_bound, IsByte}
use vsr_kv.Message.Layout.{U128Fits}

-- `blake3_hasher_init`, `_update` and `_finalize` with `BLAKE3_OUT_LEN`, which is 32.
pub record Blake3 : Type 0 where
  pub digest : List ℕ → List ℕ
  pub length_digest : (input : List ℕ) → length (digest input) ≡ 32
  pub digest_IsByte : (input : List ℕ) → All IsByte (digest input)

-- The first 16 bytes of the digest, copied over the result.
unfoldable pub calculate_checksum_128 : Blake3 → List ℕ → U128
calculate_checksum_128 blake3 input = u128.value (take 16 (blake3.digest input))

eight_bytes : (bs : List ℕ) → All IsByte bs → length bs ≡ 8 → of_bytes bs < 2 ^ 64
eight_bytes bs h e = subst (λ (n : ℕ). of_bytes bs < 256 ^ n) e (of_bytes_bound bs h)

pub u128_value_Fits : (bs : List ℕ) → All IsByte bs → length bs ≡ 16 → U128Fits (u128.value bs)
unfolding u128
u128_value_Fits bs h e = (
  eight_bytes (take 8 bs) (All-take IsByte 8 bs h) (length-take_of_le 8 bs (omega arith)),
  eight_bytes (drop 8 bs) (All-drop IsByte 8 bs h) (omega (arith, length-drop 8 bs)),
)

pub checksum_Fits :
    (blake3 : Blake3) (input : List ℕ) → U128Fits (calculate_checksum_128 blake3 input)
unfolding calculate_checksum_128
checksum_Fits blake3 input =
    u128_value_Fits (take 16 bs) (All-take IsByte 16 bs (blake3.digest_IsByte input))
      (length-take_of_le 16 bs (omega (arith, blake3.length_digest input)))
  where
    bs : List ℕ
    bs = blake3.digest input
