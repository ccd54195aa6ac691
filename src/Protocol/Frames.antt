-- ===== src/Protocol/Frames.antt =====
-- What a buffer's first frame is when more bytes arrive.
use vsr_kv.Common.{
  ltb_false→le, ℕ, ◌≤◌, ◌<◌, ◌≡◌, refl, sym, ap, subst, ◌∙◌, inl, inr, Bool, true, false, ◌||◌,
  Option, none, some, List, ◌++◌, arith, ltb, ◌==◌, le→ltb, Bool-cases, length, take, drop,
  length-append, length-drop,
}
use vsr_kv.Common.{take-append_of_le, drop-append_of_le}
use vsr_kv.Message.{VsrMessage, empty_message}
use vsr_kv.Message.Layout.{header_pod, header_size}
use vsr_kv.Message.Checksum.{Blake3}
use vsr_kv.Message.Codec.{deserialize}
use vsr_kv.Protocol.{Frame, next_frame, max_message_size}

-- The size in the header at the front of a buffer.
abbrev pub expected_size : List ℕ → ℕ
expected_size buffer = (header_pod.value (take header_size buffer)).size

abbrev pub bad_size : ℕ → Bool
bad_size size = size == 0 || ltb max_message_size size

bad_size_positive : (size : ℕ) → bad_size size ≡ false → 0 < size
bad_size_positive size h = ground arith

abbrev pub framed : Option VsrMessage → List ℕ → Frame
framed full_message rest = elim full_message [
  | none ↦ Frame.invalid
  | some msg ↦ Frame.message msg rest
]

-- The frame of a buffer that goes on with `more`.
abbrev pub Extends : List ℕ → Frame → Frame → Type 0
Extends more Frame.incomplete g = Unit
Extends more Frame.invalid g = g ≡ Frame.invalid
Extends more (Frame.message msg rest) g = g ≡ Frame.message msg (rest ++ more)

framed-Extends :
    (more : List ℕ) (full_message : Option VsrMessage) (rest : List ℕ)
    → Extends more (framed full_message rest) (framed full_message (rest ++ more))
framed-Extends more none rest = refl
framed-Extends more (some msg) rest = refl

-- What is left of the buffer is shorter.
abbrev pub Shrinks : ℕ → Frame → Type 0
Shrinks n (Frame.message msg rest) = length rest < n
Shrinks n _ = Unit

framed-Shrinks :
    (n : ℕ) (full_message : Option VsrMessage) (rest : List ℕ)
    → length rest < n
    → Shrinks n (framed full_message rest)
framed-Shrinks n none rest h = tt
framed-Shrinks n (some msg) rest h = h

module _ (blake3 : Blake3) where
  abbrev first_message : List ℕ → Option VsrMessage
  first_message buffer = deserialize blake3 (take (expected_size buffer) buffer) empty_message

  next_frame_cases :
      (P : Frame → Type 0) (buffer : List ℕ)
      → P Frame.incomplete
      → (header_size ≤ length buffer → bad_size (expected_size buffer) ≡ true → P Frame.invalid)
      → (header_size ≤ length buffer
          → bad_size (expected_size buffer) ≡ false
          → expected_size buffer ≤ length buffer
          → P (framed (first_message buffer) (drop (expected_size buffer) buffer)))
      → P (next_frame blake3 buffer)
  unfolding next_frame
  next_frame_cases P buffer i v f = elim (Bool-cases (ltb (length buffer) header_size)) [
    | inl e ↦ rw e i
    | inr e ↦ elim (Bool-cases (bad_size (expected_size buffer))) [
      | inl d ↦ rw (e, d) (v (ltb_false→le _ _ e) d)
      | inr d ↦ elim (Bool-cases (ltb (length buffer) (expected_size buffer))) [
        | inl c ↦ rw (e, d, c) i
        | inr c ↦ rw (e, d, c) (f (ltb_false→le _ _ e) d (ltb_false→le _ _ c))
      ]
    ]
  ]

  -- The two branches that need no more bytes.
  pub next_frame_bad :
      (buffer : List ℕ)
      → header_size ≤ length buffer
      → bad_size (expected_size buffer) ≡ true
      → next_frame blake3 buffer ≡ Frame.invalid
  unfolding next_frame
  next_frame_bad buffer h b = rw (le→ltb (length buffer) header_size h, b)

  pub next_frame_whole :
      (buffer : List ℕ)
      → header_size ≤ length buffer
      → bad_size (expected_size buffer) ≡ false
      → expected_size buffer ≤ length buffer
      → next_frame blake3 buffer
        ≡ framed (first_message buffer) (drop (expected_size buffer) buffer)
  unfolding next_frame
  next_frame_whole buffer h b w =
      rw (le→ltb (length buffer) header_size h, b, le→ltb (length buffer) (expected_size buffer) w)

  pub expected_size-append :
      (buffer more : List ℕ)
      → header_size ≤ length buffer
      → expected_size (buffer ++ more) ≡ expected_size buffer
  expected_size-append buffer more h =
      ap (λ bs. (header_pod.value bs).size) (take-append_of_le header_size buffer more h)

  longer : (buffer more : List ℕ) {n : ℕ} → n ≤ length buffer → n ≤ length (buffer ++ more)
  longer buffer more h = omega (arith, length-append buffer more)

  bad_size-append :
      (buffer more : List ℕ) {bad : Bool}
      → header_size ≤ length buffer
      → bad_size (expected_size buffer) ≡ bad
      → bad_size (expected_size (buffer ++ more)) ≡ bad
  bad_size-append buffer more h b = ap bad_size (expected_size-append buffer more h) ∙ b

  framed-append :
      (buffer more : List ℕ)
      → header_size ≤ length buffer
      → expected_size buffer ≤ length buffer
      → framed
          (first_message (buffer ++ more))
          (drop (expected_size (buffer ++ more)) (buffer ++ more))
        ≡ framed (first_message buffer) (drop (expected_size buffer) buffer ++ more)
  framed-append buffer more h w = rw (
    expected_size-append buffer more h,
    take-append_of_le (expected_size buffer) buffer more w,
    drop-append_of_le (expected_size buffer) buffer more w,
  )

  next_frame_whole-append :
      (buffer more : List ℕ)
      → header_size ≤ length buffer
      → bad_size (expected_size buffer) ≡ false
      → expected_size buffer ≤ length buffer
      → next_frame blake3 (buffer ++ more)
        ≡ framed (first_message buffer) (drop (expected_size buffer) buffer ++ more)
  next_frame_whole-append buffer more h b w =
      next_frame_whole (buffer ++ more) (longer buffer more h) (bad_size-append buffer more h b) (
        subst (λ n. n ≤ length (buffer ++ more)) (sym (expected_size-append buffer more h))
          (longer buffer more w))
      ∙ framed-append buffer more h w

  -- More bytes change neither the first message nor the verdict on it; they go to the rest.
  pub next_frame-append :
      (buffer more : List ℕ)
      → Extends more (next_frame blake3 buffer) (next_frame blake3 (buffer ++ more))
  next_frame-append buffer more =
      next_frame_cases (λ fr. Extends more fr (next_frame blake3 (buffer ++ more))) buffer tt
        (λ h b.
          next_frame_bad (buffer ++ more) (longer buffer more h) (bad_size-append buffer more h b))
        λ h b w.
          subst (Extends more (framed (first_message buffer) (drop (expected_size buffer) buffer)))
            (sym (next_frame_whole-append buffer more h b w))
            (framed-Extends more (first_message buffer) (drop (expected_size buffer) buffer))

  pub next_frame-Shrinks : (buffer : List ℕ) → Shrinks (length buffer) (next_frame blake3 buffer)
  next_frame-Shrinks buffer =
      next_frame_cases (Shrinks (length buffer)) buffer tt (λ h b. tt)
        λ h b w.
          framed-Shrinks (length buffer) (first_message buffer) (drop (expected_size buffer) buffer)
            (omega (
              arith,
              length-drop (expected_size buffer) buffer,
              bad_size_positive (expected_size buffer) b,
            ))
