-- ===== src/Client/Replies.antt =====
-- What the client reads from a connection: it takes each read for one reply.
use vsr_kv.Common.{
  ℕ, ◌≤◌, ◌<◌, ◌≡◌, refl, sym, ap, ◌∙◌, ◌≢◌, inl, inr, true, false, Option, none, some, List, ◌++◌,
  arith, ℕ_discrete, dec_lt, ltb, ◌==◌, if◌then◌else◌, lt→ltb, ==_iff, Bool-cases, length, take,
  take-append,
}
use vsr_kv.Message.{VsrMessage, empty_message}
use vsr_kv.Message.Layout.{header_size}
use vsr_kv.Message.Checksum.{Blake3}
use vsr_kv.Message.Codec.{accept, serialize, deserialize, sealed}
use vsr_kv.Message.RoundTrip.{MessageFits, deserialize-serialize}
use vsr_kv.Protocol.Frames.{expected_size, expected_size-append}
use vsr_kv.Protocol.Stream.{length-serialize, expected_size-serialize}
use vsr_kv.Client.{on_message}

take_prefix :
    (first rest whole more : List ℕ)
    → first ++ rest ≡ whole ++ more
    → length first ≡ length whole
    → first ≡ whole
take_prefix first rest whole more e l =
    sym (take-append (length first) first rest refl)
    ∙ ap (take (length first)) e
    ∙ take-append (length first) whole more (sym l)

==_false : (m n : ℕ) → m ≢ n → (m == n) ≡ false
==_false m n h = ground (arith, ==_iff m n)

abbrev payload_of : Option VsrMessage → Option (List ℕ)
payload_of none = none
payload_of (some msg) = some msg.payload

==_eq : (m n : ℕ) → m ≡ n → (m == n) ≡ true
==_eq m n h = ground (arith, ==_iff m n)

module _ (blake3 : Blake3) where
  wrong_size :
      (bytes : List ℕ)
      → expected_size bytes ≢ length bytes
      → deserialize blake3 bytes empty_message ≡ none
  unfolding deserialize accept
  wrong_size bytes h = elim (Bool-cases (ltb (length bytes) header_size)) [
    | inl e ↦ rw e refl
    | inr e ↦ rw (e, ==_false _ _ h) refl
  ]

  too_short :
      (bytes : List ℕ) → length bytes < header_size → deserialize blake3 bytes empty_message ≡ none
  unfolding deserialize
  too_short bytes h = rw (lt→ltb _ _ h) refl

  expected_size-prefix :
      (msg : VsrMessage) (first rest more : List ℕ)
      → MessageFits msg
      → first ++ rest ≡ serialize blake3 msg ++ more
      → header_size ≤ length first
      → expected_size first ≡ length (serialize blake3 msg)
  expected_size-prefix msg first rest more f e l =
      sym (expected_size-append blake3 first rest l)
      ∙ ap expected_size e
      ∙ expected_size-append blake3 (serialize blake3 msg) more
          (omega (arith, length-serialize blake3 msg))
      ∙ expected_size-serialize blake3 msg f
      ∙ sym (length-serialize blake3 msg)

  refused :
      (msg : VsrMessage) (first rest more : List ℕ)
      → MessageFits msg
      → first ++ rest ≡ serialize blake3 msg ++ more
      → length first ≢ length (serialize blake3 msg)
      → deserialize blake3 first empty_message ≡ none
  refused msg first rest more f e n = elim (dec_lt (length first) header_size) [
    | yes l ↦ too_short first l
    | no l ↦
        wrong_size first
          (λ w. n (sym w ∙ expected_size-prefix msg first rest more f e (omega arith)))
  ]

  -- A read that starts at a reply, whatever comes after it, gives the reply's payload if it
  -- brings exactly the bytes of the reply, and the failure otherwise: replies that one read brings
  -- together, and a reply that two reads divide, are lost.
  pub on_message-read :
      (msg : VsrMessage) (first rest more : List ℕ)
      → MessageFits msg
      → first ++ rest ≡ serialize blake3 msg ++ more
      → on_message blake3 first
        ≡ (if length first == length (serialize blake3 msg) then some msg.payload else none)
  unfolding on_message sealed
  on_message-read msg first rest more f e =
      elim (ℕ_discrete (length first) (length (serialize blake3 msg))) [
        | yes l ↦
            rw
              (
                ==_eq (length first) (length (serialize blake3 msg)) l,
                take_prefix first rest (serialize blake3 msg) more e l,
              )
              (ap payload_of (deserialize-serialize blake3 msg f))
        | no n ↦
            rw (==_false (length first) (length (serialize blake3 msg)) n)
              (ap payload_of (refused msg first rest more f e n))
      ]
