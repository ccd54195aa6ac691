-- ===== src/Tests/Wire.antt =====
-- Bytes: messages and payloads.
use vsr_kv.Common.{ℕ, ◌≡◌, refl, true, false, some, [], arith}
use vsr_kv.Tests.Data.{client_id, set_request, two_entries, toy_blake3}
use vsr_kv.Utilities.{U128, u128_lt, u128_eq, u128_lt_trans}
use vsr_kv.Message.{empty_message}
use vsr_kv.Message.Codec.{serialize, deserialize, sealed}
use vsr_kv.Message.RoundTrip.{MessageFits, deserialize-serialize}
use vsr_kv.Serialization.{DoViewChangePayload, RecoveryResponsePayload}
use vsr_kv.Serialization.RoundTrip.{LogFits}

set_request-Fits : MessageFits set_request
set_request-Fits = omega arith

deserialize-serialize_example :
    deserialize toy_blake3 (serialize toy_blake3 set_request) empty_message
    ≡ some (sealed toy_blake3 set_request)
deserialize-serialize_example = deserialize-serialize toy_blake3 set_request set_request-Fits

pub two_entries-Fits : LogFits two_entries
two_entries-Fits = omega arith

abbrev dvc : DoViewChangePayload
dvc = record { last_normal_view = 3; log = two_entries }

abbrev response : RecoveryResponsePayload
response = record { nonce = client_id; log = two_entries }

abbrev blank : RecoveryResponsePayload
blank = record { nonce = record { high = 0; low = 0 }; log = [] }

abbrev number : ℕ → ℕ → U128
number h l = record { high = h; low = l }

u128_lt_trans_example :
    (u128_lt (number 1 5) (number 2 9) ≡ true)
    × (u128_lt (number 2 9) (number 1 5) ≡ false)
    × (u128_eq (number 1 5) (number 2 9) ≡ false)
u128_lt_trans_example =
    u128_lt_trans (number 1 5) (number 2 3) (number 2 9) (unfold u128_lt in refl)
      (unfold u128_lt in refl)
