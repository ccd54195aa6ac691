-- ===== src/Wire/Pod.antt =====
-- Plain data: a type with the bytes of its values, and `write_pod` and `read_pod` of
-- server/serialization.hpp over any such type.
use vsr_kv.Common.{
  ℕ, ◌+◌, ◌%◌, ◌^◌, ◌≡◌, ap, List, ◌++◌, arith, length, take, drop, length-append, false,
  length-drop, take-append, drop-append, Option, none, some, ltb, le→ltb, if◌then◌else◌,
}
use vsr_kv.Wire.Bytes.{to_bytes, of_bytes, of_bytes-to_bytes, length-to_bytes}

-- `wrap v` is what an object of the type holds after `v` has been stored in it: the value itself,
-- if it is in the type's range.
pub record Pod (T : Type 0) : Type 0 where
  pub size : ℕ
  pub bytes : T → List ℕ
  pub value : List ℕ → T
  pub wrap : T → T
  pub value-bytes : (v : T) → value (bytes v) ≡ wrap v
  pub length-bytes : (v : T) → length (bytes v) ≡ size

-- An unsigned integer of `n` bytes.
abbrev pub uint : ℕ → Pod ℕ
uint n = record {
  size = n;
  bytes = to_bytes n;
  value = of_bytes;
  wrap = λ v. v % 256 ^ n;
  value-bytes = of_bytes-to_bytes n;
  length-bytes = length-to_bytes n;
}

module _ {A B : Type 0} (a : Pod A) (b : Pod B) where
  unfoldable pub pair_value : List ℕ → A × B
  pair_value bs = (a.value (take a.size bs), b.value (drop a.size bs))

  pub pair_value-bytes :
      (v : A × B) → pair_value (a.bytes v.0 ++ b.bytes v.1) ≡ (a.wrap v.0, b.wrap v.1)
  unfolding pair_value
  pair_value-bytes (x, y) = rw (
    take-append a.size (a.bytes x) (b.bytes y) (a.length-bytes x),
    drop-append a.size (a.bytes x) (b.bytes y) (a.length-bytes x),
    a.value-bytes x,
    b.value-bytes y,
  )

  pub pair_length : (v : A × B) → length (a.bytes v.0 ++ b.bytes v.1) ≡ a.size + b.size
  pair_length (x, y) =
      omega (arith, length-append (a.bytes x) (b.bytes y), a.length-bytes x, b.length-bytes y)

  -- The members of a packed structure follow one another.
  unfoldable pub pair : Pod (A × B)
  unfolding pair_value
  pair = record {
    size = a.size + b.size;
    bytes = λ v. a.bytes v.0 ++ b.bytes v.1;
    value = pair_value;
    wrap = λ v. (a.wrap v.0, b.wrap v.1);
    value-bytes = pair_value-bytes;
    length-bytes = pair_length;
  }

-- A type whose values are those of another type, by `to` and `from`.
module _ {A B : Type 0} (a : Pod A) (to : A → B) (from : B → A) where
  unfoldable pub via : Pod B
  via = record {
    size = a.size;
    bytes = λ v. a.bytes (from v);
    value = λ bs. to (a.value bs);
    wrap = λ v. to (a.wrap (from v));
    value-bytes = λ v. ap to (a.value-bytes (from v));
    length-bytes = λ v. a.length-bytes (from v);
  }

module _ {T : Type 0} (t : Pod T) where
  -- Appends the bytes of `value` to the buffer.
  unfoldable pub write_pod : List ℕ → T → List ℕ
  write_pod buffer value = buffer ++ t.bytes value

  -- `ptr` is the input from the read position up to `end`. `none` is the result `false`.
  unfoldable pub read_pod : List ℕ → Option (T × List ℕ)
  read_pod ptr =
      if ltb (length ptr) t.size then none else some (t.value (take t.size ptr), drop t.size ptr)

  -- What was written is read back, up to the type's range, and the rest is left.
  pub read_pod-bytes :
      (v : T) (rest : List ℕ) → read_pod (t.bytes v ++ rest) ≡ some (t.wrap v, rest)
  unfolding read_pod
  read_pod-bytes v rest = rw (
    take-append t.size (t.bytes v) rest (t.length-bytes v),
    drop-append t.size (t.bytes v) rest (t.length-bytes v),
    t.value-bytes v,
    enough,
  )
    where
      enough : ltb (length (t.bytes v ++ rest)) t.size ≡ false
      enough = le→ltb _ _ (omega (arith, length-append (t.bytes v) rest, t.length-bytes v))

  -- Whatever is read, the position moves on by the size of the type, within the input.
  pub read_pod_advances :
      (ptr : List ℕ) (v : T) (rest : List ℕ)
      → read_pod ptr ≡ some (v, rest)
      → length rest + t.size ≡ length ptr
  unfolding read_pod
  read_pod_advances ptr v rest e = ground (arith, length-drop t.size ptr)
