-- ===== src/Network/Identify.antt =====
-- The handshake tells the sender's id, and hides what comes with it.
use vsr_kv.Common.{
  ℕ, zero, suc, ◌+◌, ◌-◌, ◌*◌, ◌/◌, ◌%◌, ◌^◌, ◌<◌, ◌≡◌, refl, ap, ◌∙◌, ◌≢◌, inl, inr, true, false,
  some, List, [], ◌∷◌, ◌++◌, arith, ltb, ◌==◌, ltb→lt, lt→ltb, Bool-cases, All, All-append,
  ltb_false→le,
}
use vsr_kv.Common.Map.{nat_key}
use vsr_kv.Replica.Execute.{is_space, skip_spaces}
use mathlib.Core.List.{foldl-append}
use vsr_kv.Network.Handshake.{
  ℤ, decimal, to_string, is_digit, digit_prefix, number, positive, signed, stoi, handshake_msg,
  starts_with, handshake_id,
}
use vsr_kv.Network.Sockets.{fd_key}

abbrev IsDigit : ℕ → Type 0
IsDigit c = is_digit c ≡ true

digit : (d : ℕ) → d < 10 → IsDigit (48 + d)
digit d h = ground arith

-- What follows a number does not continue it.
abbrev pub NoDigit : List ℕ → Type 0
NoDigit [] = Unit
NoDigit (c ∷ cs) = is_digit c ≡ false

decimal-IsDigit : (rounds n : ℕ) → All IsDigit (decimal rounds n)
decimal-IsDigit zero n = tt
decimal-IsDigit (suc rounds) n = elim (Bool-cases (ltb n 10)) [
  | inl e ↦ rw (decimal, e) (digit n (ltb→lt n 10 e), tt)
  | inr e ↦
      rw (decimal, e)
        (All-append _ (decimal rounds (n / 10)) ((48 + n % 10) ∷ [])
          (decimal-IsDigit rounds (n / 10)) (digit (n % 10) (omega arith), tt))
]

number-snoc : (cs : List ℕ) (c : ℕ) → number (cs ++ (c ∷ [])) ≡ number cs * 10 + (c - 48)
number-snoc cs c = foldl-append (λ (n c : ℕ). n * 10 + (c - 48)) 0 cs (c ∷ [])

number-decimal : (rounds n : ℕ) → n < rounds → number (decimal rounds n) ≡ n
number-decimal zero n h = omega arith
number-decimal (suc rounds) n h = elim (Bool-cases (ltb n 10)) [
  | inl e ↦ rw (decimal, e) (omega arith)
  | inr e ↦
      rw
        (
          decimal,
          e,
          number-snoc (decimal rounds (n / 10)) (48 + n % 10),
          number-decimal rounds (n / 10) (omega (arith, ltb_false→le n 10 e)),
        )
        (omega arith)
]

digit_prefix-append :
    (cs rest : List ℕ) → All IsDigit cs → NoDigit rest → digit_prefix (cs ++ rest) ≡ cs
digit_prefix-append [] [] a n = refl
digit_prefix-append [] (c ∷ cs) a n = rw n refl
digit_prefix-append (c ∷ cs) rest a n =
    rw (a.0) (ap (λ ds. c ∷ ds) (digit_prefix-append cs rest a.1 n))

not_empty : (xs : List ℕ) (x : ℕ) → xs ++ (x ∷ []) ≢ []
not_empty [] x e = cc
not_empty (y ∷ ys) x e = cc

decimal_not_empty : (rounds n : ℕ) → decimal (suc rounds) n ≢ []
decimal_not_empty rounds n = elim (Bool-cases (ltb n 10)) [
  | inl e ↦ rw (decimal, e) (not_empty [] (48 + n))
  | inr e ↦ rw (decimal, e) (not_empty (decimal rounds (n / 10)) (48 + n % 10))
]

digit_not_space : (c : ℕ) → IsDigit c → is_space c ≡ false
digit_not_space c h = ground arith

digit_not_minus : (c : ℕ) → IsDigit c → (c == b'-') ≡ false
digit_not_minus c h = ground arith

digit_not_plus : (c : ℕ) → IsDigit c → (c == b'+') ≡ false
digit_not_plus c h = ground arith

stoi-digits :
    (ds rest : List ℕ)
    → All IsDigit ds
    → ds ≢ []
    → NoDigit rest
    → number ds < 2 ^ 31
    → stoi (ds ++ rest) ≡ some (ℤ.pos (number ds))
unfolding stoi
stoi-digits [] rest a n r h = absurd (n refl)
stoi-digits (c ∷ cs) rest a n r h =
    rw
      (
        skip_spaces,
        digit_not_space c (a.0),
        signed,
        digit_not_minus c (a.0),
        digit_not_plus c (a.0),
      )
      (ap positive (digit_prefix-append (c ∷ cs) rest a r)
        ∙ rw (positive, lt→ltb (number (c ∷ cs)) (2 ^ 31) h) refl)

pub stoi-to_string :
    (id : ℕ) (rest : List ℕ)
    → id < 2 ^ 31
    → NoDigit rest
    → stoi (to_string id ++ rest) ≡ some (ℤ.pos id)
unfolding to_string
stoi-to_string id rest h r =
    let whole = number-decimal (suc id) id (omega arith) in
    stoi-digits (decimal (suc id) id) rest (decimal-IsDigit (suc id) id) (decimal_not_empty id id) r
      (omega (arith, whole))
    ∙ ap (λ n. some (ℤ.pos n)) whole

-- The id of the sender is read from its handshake, for ids that an `int` holds, whatever follows
-- that is not a digit.
pub handshake_id-handshake_msg :
    (id : ℕ) (rest : List ℕ)
    → id < 2 ^ 31
    → NoDigit rest
    → handshake_id (handshake_msg id ++ rest) ≡ some (ℤ.pos id)
unfolding handshake_id handshake_msg starts_with
handshake_id-handshake_msg id rest h r = stoi-to_string id rest h r
