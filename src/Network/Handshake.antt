-- ===== src/Network/Handshake.antt =====
-- The handshake of server/replica_manager.cpp and server/tcp_server.cpp: the text, and the id.
use vsr_kv.Common.{
  ℕ, zero, suc, ◌+◌, ◌-◌, ◌*◌, ◌/◌, ◌%◌, ◌^◌, Bool, true, false, ◌&&◌, Option, none, some, List, [],
  ◌∷◌, ◌++◌, foldl, ltb, leb, ◌==◌, if◌then◌else◌, drop,
}
use vsr_kv.Replica.Execute.{skip_spaces}

-- An `int`.
pub data ℤ : Type 0 where
  pos negsuc : ℕ → ℤ

abbrev pub decimal : ℕ → ℕ → List ℕ
decimal zero n = []
decimal (suc rounds) n =
    if ltb n 10 then (48 + n) ∷ [] else decimal rounds (n / 10) ++ ((48 + n % 10) ∷ [])

-- `std::to_string`: a number has fewer digits than its successor.
unfoldable pub to_string : ℕ → List ℕ
to_string n = decimal (suc n) n

abbrev pub is_digit : ℕ → Bool
is_digit c = leb 48 c && leb c 57

abbrev pub digit_prefix : List ℕ → List ℕ
digit_prefix [] = []
digit_prefix (c ∷ cs) = if is_digit c then c ∷ digit_prefix cs else []

abbrev pub number : List ℕ → ℕ
number = foldl (λ n c. n * 10 + (c - 48)) 0

abbrev pub positive : List ℕ → Option ℤ
positive [] = none
positive (c ∷ cs) = if ltb (number (c ∷ cs)) (2 ^ 31) then some (ℤ.pos (number (c ∷ cs))) else none

abbrev pub negated : ℕ → ℤ
negated zero = ℤ.pos 0
negated (suc n) = ℤ.negsuc n

abbrev pub negative : List ℕ → Option ℤ
negative [] = none
negative (c ∷ cs) =
    if leb (number (c ∷ cs)) (2 ^ 31) then some (negated (number (c ∷ cs))) else none

abbrev pub signed : List ℕ → Option ℤ
signed [] = none
signed (c ∷ cs) =
    if c == b'-'
    then negative (digit_prefix cs)
    else if c == b'+'
    then positive (digit_prefix cs)
    else positive (digit_prefix (c ∷ cs))

-- `std::stoi`: white space, a sign, and the digits; what is behind them is not looked at.
-- `none` is the exception that is thrown where there is no digit, or the number is no `int`.
unfoldable pub stoi : List ℕ → Option ℤ
stoi text = signed (skip_spaces text)

abbrev pub handshake_prefix : List ℕ
handshake_prefix =
    b'H' ∷ b'A' ∷ b'N' ∷ b'D' ∷ b'S' ∷ b'H' ∷ b'A' ∷ b'K' ∷ b'E' ∷ b'_' ∷ b'I' ∷ b'D' ∷ b':' ∷ []

-- The text that `send_handshake` sends.
unfoldable pub handshake_msg : ℕ → List ℕ
unfolding to_string
handshake_msg self_id = handshake_prefix ++ to_string self_id

unfoldable pub starts_with : List ℕ → List ℕ → Bool
starts_with [] text = true
starts_with (c ∷ cs) [] = false
starts_with (c ∷ cs) (d ∷ ds) = c == d && starts_with cs ds

-- What the first read of a connection holds: `rfind("HANDSHAKE_ID:", 0)` and `stoi`.
unfoldable pub handshake_id : List ℕ → Option ℤ
unfolding starts_with stoi
handshake_id message = if starts_with handshake_prefix message then stoi (drop 13 message) else none
