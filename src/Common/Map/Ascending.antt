-- ===== src/Common/Map/Ascending.antt =====
-- Maps keyed by numbers, as the log is: the ascending order of their entries.
use mathlib.Core.Path.{◌≡◌, refl}
use mathlib.Core.Option.{none, some}
use mathlib.Core.List.{[], ◌∷◌, ◌++◌}
use native.Mathlib.Omega.{arith}
use Prim.Native.Nat.{ℕ, suc, ◌≤◌, ◌<◌}
use vsr_kv.Common.Lists.{All}
use vsr_kv.Common.Map.{Map, find, insert, nat_key}

module _ {V : Type 0} where
  -- The keys ascend, from `b` on.
  abbrev pub Ascends : ℕ → Map ℕ V → Type 0
  Ascends b [] = Unit
  Ascends b ((k, v) ∷ m) = (b ≤ k) × Ascends (suc k) m

  abbrev pub KeysBelow : ℕ → Map ℕ V → Type 0
  KeysBelow b = All (λ p. p.0 < b)

  pub Ascends-mono : {b c : ℕ} (m : Map ℕ V) → b ≤ c → Ascends c m → Ascends b m
  Ascends-mono [] h a = tt
  Ascends-mono ((k, v) ∷ m) h a = (omega arith, a.1)

  pub KeysBelow-mono : {b c : ℕ} (m : Map ℕ V) → b ≤ c → KeysBelow b m → KeysBelow c m
  KeysBelow-mono [] h a = tt
  KeysBelow-mono (p ∷ m) h a = (omega arith, KeysBelow-mono m h a.1)

  pub insert-Ascends :
      (b k : ℕ) (v : V) (m : Map ℕ V) → b ≤ k → Ascends b m → Ascends b (insert k v m)
  unfolding insert
  insert-Ascends b k v [] h a = (h, tt)
  insert-Ascends b k v ((j, w) ∷ m) h a = ground (arith, insert-Ascends (suc j) k v m)

  pub insert-KeysBelow :
      (b k : ℕ) (v : V) (m : Map ℕ V) → k < b → KeysBelow b m → KeysBelow b (insert k v m)
  unfolding insert
  insert-KeysBelow b k v [] h a = (h, tt)
  insert-KeysBelow b k v ((j, w) ∷ m) h a = ground (arith, insert-KeysBelow b k v m h a.1)

  -- A key above all the others goes to the end.
  pub insert_last : (k : ℕ) (v : V) (m : Map ℕ V) → KeysBelow k m → insert k v m ≡ m ++ (k, v) ∷ []
  unfolding insert
  insert_last k v [] a = refl
  insert_last k v ((j, w) ∷ m) a = ground (arith, insert_last k v m a.1)

  pub find_below : (k : ℕ) (m : Map ℕ V) → KeysBelow k m → find k m ≡ none
  unfolding find
  find_below k [] a = refl
  find_below k ((j, w) ∷ m) a = ground (arith, find_below k m a.1)

  pub find-KeysBelow : (k b : ℕ) (m : Map ℕ V) (v : V) → KeysBelow b m → find k m ≡ some v → k < b
  unfolding find
  find-KeysBelow k b [] v a e = cc
  find-KeysBelow k b ((j, w) ∷ m) v a e = ground (arith, find-KeysBelow k b m v a.1)
