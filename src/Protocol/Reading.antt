-- ===== src/Protocol/Reading.antt =====
-- The loop over the frames of a buffer, and the loop over two parts of it.
use vsr_kv.Common.{
  ℕ, zero, suc, ◌≤◌, ◌<◌, ◌≡◌, refl, sym, ap, subst, ◌∙◌, ◌⊎◌, inl, inr, Option, none, some, List,
  [], ◌∷◌, ◌++◌, arith, length,
}
use vsr_kv.Message.{VsrMessage}
use vsr_kv.Message.Checksum.{Blake3}
use vsr_kv.Protocol.{Frame, next_frame, read_messages, read_all}
use vsr_kv.Protocol.Frames.{Extends, next_frame-append, Shrinks, next_frame-Shrinks}

abbrev pub Read : Type 0
Read = List VsrMessage × Option (List ℕ)

abbrev pub after_message : VsrMessage → Read → Read
after_message msg (msgs, left) = (msg ∷ msgs, left)

Frame-cases :
    (f : Frame)
    → (f ≡ Frame.incomplete)
      ⊎ (f ≡ Frame.invalid)
      ⊎ ((msg : VsrMessage) × (rest : List ℕ) × (f ≡ Frame.message msg rest))
Frame-cases Frame.incomplete = inl refl
Frame-cases Frame.invalid = inr (inl refl)
Frame-cases (Frame.message msg rest) = inr (inr (msg, rest, refl))

module _ (blake3 : Blake3) where
  shorter :
      (buffer : List ℕ) (msg : VsrMessage) (rest : List ℕ)
      → next_frame blake3 buffer ≡ Frame.message msg rest
      → length rest < length buffer
  shorter buffer msg rest e = subst (Shrinks (length buffer)) e (next_frame-Shrinks blake3 buffer)

  read_messages_nil : (n : ℕ) → read_messages blake3 n [] ≡ ([], some [])
  unfolding read_messages next_frame
  read_messages_nil zero = refl
  read_messages_nil (suc n) = refl

  -- Any number of rounds from the length of the buffer on gives the same.
  read_messages_enough :
      (n k : ℕ) (buffer : List ℕ)
      → length buffer ≤ n
      → length buffer ≤ k
      → read_messages blake3 n buffer ≡ read_messages blake3 k buffer
  unfolding read_messages
  read_messages_enough zero k [] h i = sym (read_messages_nil k)
  read_messages_enough zero k (b ∷ bs) h i = absurd (omega arith)
  read_messages_enough (suc n) zero [] h i = read_messages_nil (suc n)
  read_messages_enough (suc n) zero (b ∷ bs) h i = absurd (omega arith)
  read_messages_enough (suc n) (suc k) buffer h i = elim (Frame-cases (next_frame blake3 buffer)) [
    | inl e ↦ rw (e, read_messages)
    | inr (inl e) ↦ rw (e, read_messages)
    | inr (inr (msg, rest, e)) ↦
        let s = shorter buffer msg rest e in
        rw (e, read_messages, read_messages_enough n k rest (omega arith) (omega arith))
  ]

  -- The loop by its first frame.
  abbrev pub by_frame : Frame → List ℕ → Read
  by_frame Frame.incomplete buffer = ([], some buffer)
  by_frame Frame.invalid buffer = ([], none)
  by_frame (Frame.message msg rest) buffer = after_message msg (read_all blake3 rest)

  pub read_all_lem :
      (buffer : List ℕ) → read_all blake3 buffer ≡ by_frame (next_frame blake3 buffer) buffer
  unfolding read_all read_messages
  read_all_lem buffer =
      read_messages_enough (length buffer) (suc (length buffer)) buffer (omega arith) (omega arith)
      ∙ elim (Frame-cases (next_frame blake3 buffer)) [
        | inl e ↦ rw (e, read_messages)
        | inr (inl e) ↦ rw (e, read_messages)
        | inr (inr (msg, rest, e)) ↦
            let s = shorter buffer msg rest e in
            rw (
              e,
              read_messages,
              read_messages_enough (length buffer) (length rest) rest (omega arith) (omega arith),
            )
      ]

  -- The loop over `more` after what was read before.
  abbrev pub continue_read : Read → List ℕ → Read
  continue_read (msgs, none) more = (msgs, none)
  continue_read (msgs, some rest) more =
      let (msgs', left) = read_all blake3 (rest ++ more) in (msgs ++ msgs', left)

  after_continue :
      (msg : VsrMessage) (read : Read) (more : List ℕ)
      → after_message msg (continue_read read more) ≡ continue_read (after_message msg read) more
  after_continue msg (msgs, none) more = refl
  after_continue msg (msgs, some rest) more = refl

  first-Extends :
      (buffer more : List ℕ) {f : Frame}
      → next_frame blake3 buffer ≡ f
      → Extends more f (next_frame blake3 (buffer ++ more))
  first-Extends buffer more e =
      subst (λ f. Extends more f (next_frame blake3 (buffer ++ more))) e
        (next_frame-append blake3 buffer more)

  read_messages-append :
      (n : ℕ) (buffer more : List ℕ)
      → length buffer ≤ n
      → read_all blake3 (buffer ++ more) ≡ continue_read (read_messages blake3 n buffer) more
  unfolding read_messages
  read_messages-append zero buffer more h = refl
  read_messages-append (suc n) buffer more h = elim (Frame-cases (next_frame blake3 buffer)) [
    | inl e ↦ rw (e, read_messages)
    | inr (inl e) ↦
        rw (e, read_messages)
          (read_all_lem (buffer ++ more)
            ∙ ap (λ f. by_frame f (buffer ++ more)) (first-Extends buffer more e))
    | inr (inr (msg, rest, e)) ↦
        let s = shorter buffer msg rest e in
        rw (e, read_messages)
          (read_all_lem (buffer ++ more)
            ∙ ap (λ f. by_frame f (buffer ++ more)) (first-Extends buffer more e)
            ∙ ap (after_message msg) (read_messages-append n rest more (omega arith))
            ∙ after_continue msg (read_messages blake3 n rest) more)
  ]

  -- Reading two parts one after the other is reading the whole.
  pub read_all-append :
      (buffer more : List ℕ)
      → read_all blake3 (buffer ++ more) ≡ continue_read (read_all blake3 buffer) more
  unfolding read_all
  read_all-append buffer more = read_messages-append (length buffer) buffer more (omega arith)

  -- What is left holds no whole message.
  abbrev pub Settled : Read → Type 0
  Settled (msgs, none) = Unit
  Settled (msgs, some left) = read_all blake3 left ≡ ([], some left)

  after_message-Settled :
      (msg : VsrMessage) (read : Read) → Settled read → Settled (after_message msg read)
  after_message-Settled msg (msgs, none) h = tt
  after_message-Settled msg (msgs, some left) h = h

  read_messages-Settled :
      (n : ℕ) (buffer : List ℕ) → length buffer ≤ n → Settled (read_messages blake3 n buffer)
  unfolding read_messages read_all
  read_messages-Settled zero [] h = refl
  read_messages-Settled zero (b ∷ bs) h = absurd (omega arith)
  read_messages-Settled (suc n) buffer h = elim (Frame-cases (next_frame blake3 buffer)) [
    | inl e ↦ rw (e, read_messages) (read_all_lem buffer ∙ ap (λ f. by_frame f buffer) e)
    | inr (inl e) ↦ rw (e, read_messages) tt
    | inr (inr (msg, rest, e)) ↦
        let s = shorter buffer msg rest e in
        rw (e, read_messages)
          (after_message-Settled msg (read_messages blake3 n rest)
            (read_messages-Settled n rest (omega arith)))
  ]

  pub read_all-Settled : (buffer : List ℕ) → Settled (read_all blake3 buffer)
  unfolding read_all
  read_all-Settled buffer = read_messages-Settled (length buffer) buffer (omega arith)
