-- ===== src/Message/Ranges.antt =====
-- What a header holds that was read from bytes lies in the range of its type.
use vsr_kv.Common.{
  ℕ, zero, suc, ◌-◌, ◌^◌, ◌≤◌, ◌<◌, ◌≡◌, sym, subst, ◌∙◌, inl, inr, some, List, [], ◌∷◌, arith, ltb,
  Bool-cases, length, take, drop, All, length-drop, length-take_of_le, All-take, All-drop,
  ltb_false→le,
}
use vsr_kv.Utilities.{u128}
use vsr_kv.Message.{Command, Operation, VsrMessage, empty_message}
use vsr_kv.Message.Layout.{
  get_or, operations, enumerators, member_pods, header_pod, header_size, header_pod_size,
  HeaderFits, command_pod, command_of, CommandFits, operation_pod, operation_of, OperationFits,
  U128Fits,
}
use vsr_kv.Message.Checksum.{Blake3, u128_value_Fits}
use vsr_kv.Message.Codec.{received_payload, accept, deserialize}
use vsr_kv.Wire.Bytes.{IsByte, of_bytes, of_bytes_bound}
use vsr_kv.Wire.Pod.{Pod, uint, pair}

abbrev pub Bytes : List ℕ → Type 0
Bytes = All IsByte

-- A value of `t` from bytes satisfies `P`.
abbrev pub Reads : {T : Type 0} → Pod T → (T → Type 0) → Type 0
Reads t P = (bs : List ℕ) → Bytes bs → length bs ≡ t.size → P (t.value bs)

pub uint-Reads : (n : ℕ) → Reads (uint n) (λ v. v < 256 ^ n)
uint-Reads n bs b e = subst (λ (k : ℕ). of_bytes bs < 256 ^ k) e (of_bytes_bound bs b)

get_or-All :
    {A : Type 0} (P : A → Type 0) (xs : List A) (n : ℕ) (d : A)
    → All P xs
    → (length xs ≤ n → P d)
    → P (get_or xs n d)
unfolding get_or
get_or-All P [] n d h k = k (omega arith)
get_or-All P (x ∷ xs) zero d h k = h.0
get_or-All P (x ∷ xs) (suc n) d h k = get_or-All P xs n d h.1 (λ l. k (omega arith))

operation_of_Fits : (n : ℕ) → n < 256 → OperationFits (operation_of n)
unfolding operation_of
operation_of_Fits n h =
    get_or-All OperationFits operations n (Operation.other n) (omega arith) (λ l. omega arith)

pub operation-Reads : Reads operation_pod OperationFits
unfolding operation_pod
operation-Reads bs b e = operation_of_Fits (of_bytes bs) (uint-Reads 1 bs b e)

pub u128-Reads : Reads u128 U128Fits
u128-Reads bs b e = u128_value_Fits bs b (unfold u128 in e)

command_of_Fits : (n : ℕ) → n < 256 → CommandFits (command_of n)
unfolding command_of
command_of_Fits n h =
    get_or-All CommandFits enumerators n (Command.other n) (omega arith) (λ l. omega arith)

command-Reads : Reads command_pod CommandFits
unfolding command_pod
command-Reads bs b e = command_of_Fits (of_bytes bs) (uint-Reads 1 bs b e)

-- What the values of a type satisfy that were read from bytes.
record Range {T : Type 0} (t : Pod T) : Type 1 where
  Holds : T → Type 0
  reads : Reads t Holds

uint-Range : (n : ℕ) → Range (uint n)
uint-Range n = record { Holds = λ v. v < 256 ^ n; reads = uint-Reads n }

u128-Range : Range u128
u128-Range = record { Holds = U128Fits; reads = u128-Reads }

pair-Range : {A B : Type 0} (a : Pod A) (b : Pod B) → Range a → Range b → Range (pair a b)
unfolding pair
pair-Range a b f g = record {
  Holds = λ v. f.Holds v.0 × g.Holds v.1;
  reads = λ bs h e. (
    f.reads (take a.size bs) (All-take IsByte a.size bs h)
        (length-take_of_le a.size bs (omega arith)),
    g.reads (drop a.size bs) (All-drop IsByte a.size bs h) (omega (arith, length-drop a.size bs)),
  );
}

command-Range : Range command_pod
command-Range = record { Holds = CommandFits; reads = command-Reads }

operation-Range : Range operation_pod
operation-Range = record { Holds = OperationFits; reads = operation-Reads }

abbrev members-Range : Range member_pods
unfolding member_pods u128-Range uint-Range pair-Range
members-Range = pair-Range _ _ u128-Range (
    pair-Range _ _ u128-Range (
      pair-Range _ _ u128-Range (
        pair-Range _ _ u128-Range (
          pair-Range _ _ u128-Range (
            pair-Range _ _ (uint-Range 4) (
              pair-Range _ _ (uint-Range 4) (
                pair-Range _ _ (uint-Range 4) (
                  pair-Range _ _ (uint-Range 4) (
                    pair-Range _ _ (uint-Range 4) (
                      pair-Range _ _ (uint-Range 8) (
                        pair-Range _ _ (uint-Range 8) (
                          pair-Range _ _ (uint-Range 8) (
                            pair-Range _ _ (uint-Range 1) (
                              pair-Range _ _ command-Range
                                (pair-Range _ _ operation-Range (uint-Range 1))))))))))))))))

header-Reads : Reads header_pod HeaderFits
unfolding header_pod members-Range command-Range operation-Range
header-Reads bs b e =
    let (
      r0,
      (
        r1,
        (
          r2,
          (r3, (r4, (r5, (r6, (r7, (r8, (r9, (r10, (r11, (r12, (r13, (r14, (r15, r16))))))))))))),
        ),
      ),
    ) =
      members-Range.reads bs b e in
    record {
      checksum = r0;
      checksum_body = r1;
      parent = r2;
      client = r3;
      context = r4;
      size = r5;
      request = r6;
      cluster = r7;
      epoch = r8;
      view = r9;
      op = r10;
      commit = r11;
      offset = r12;
      replica = r13;
      command = r14;
      operation = r15;
      version = r16;
    }

-- The members of the header lie in range, and the payload is bytes.
pub record InRange (msg : VsrMessage) : Type 0 where
  pub header : HeaderFits msg.header
  pub payload : Bytes msg.payload

received_payload-Bytes :
    (size : ℕ) (bytes before : List ℕ)
    → Bytes bytes
    → Bytes before
    → Bytes (received_payload size bytes before)
unfolding received_payload
received_payload-Bytes size bytes before b c = elim (Bool-cases (ltb 0 (size - header_size))) [
  | inl e ↦ rw e (All-drop IsByte header_size bytes b)
  | inr e ↦ rw e c
]

length-received_payload :
    (size : ℕ) (bytes : List ℕ) → length (received_payload size bytes []) ≤ length bytes
unfolding received_payload
length-received_payload size bytes = elim (Bool-cases (ltb 0 (size - header_size))) [
  | inl e ↦ rw e (omega (arith, length-drop header_size bytes))
  | inr e ↦ rw e (omega arith)
]

module _ (blake3 : Blake3) where
  accept_same : (bytes : List ℕ) (msg m : VsrMessage) → accept blake3 bytes msg ≡ some m → msg ≡ m
  unfolding accept
  accept_same bytes msg m e = ground arith

  -- A message that is accepted from bytes is in range, and no longer than they are.
  pub deserialize-InRange :
      (bytes : List ℕ) (msg : VsrMessage)
      → Bytes bytes
      → deserialize blake3 bytes empty_message ≡ some msg
      → InRange msg × (length msg.payload ≤ length bytes)
  unfolding deserialize
  deserialize-InRange bytes msg b e = elim (Bool-cases (ltb (length bytes) header_size)) [
    | inl short ↦ absurd (cc (short, e))
    | inr long ↦
        let h = header_pod.value (take header_size bytes) in
        let m : VsrMessage = record { header = h; payload = received_payload h.size bytes [] } in
        let same : m ≡ msg = accept_same bytes m msg (rw long at e) in
        subst (λ n. InRange n × (length n.payload ≤ length bytes)) same
          (
            record {
              header = header-Reads (take header_size bytes) (All-take IsByte header_size bytes b) (
                  length-take_of_le header_size bytes (ltb_false→le _ _ long)
                  ∙ sym header_pod_size);
              payload = received_payload-Bytes h.size bytes [] b tt;
            },
            length-received_payload h.size bytes,
          )
  ]
