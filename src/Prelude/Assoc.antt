-- ===== src/Prelude/Assoc.antt =====
-- A `std::map` keyed by numbers: an association list, kept in the order of its keys.
pub mod Entries
use Prim.Native.Nat.{ℕ, ◌≤◌, ◌<◌}
use mathlib.Core.Path.{◌≡◌, refl}
use mathlib.Core.Option
use mathlib.Core.List.{List, [], ◌∷◌, ◌++◌}
use mathlib.Core.Option.{Option, none, some}
use native.Mathlib.Omega.{arith}
use net_lib_wrapper.Prelude.Tests.{ltb, ◌==◌, if◌then◌else◌}

module _ {ℓ} {V : Type ℓ} where
  -- `m.find( k )`
  unfoldable pub find : ℕ → List (ℕ × V) → Option V
  find k [] = none
  find k ((j, v) ∷ m) = if j == k then some v else find k m

  -- `m[k] = v`
  unfoldable pub insert : ℕ → V → List (ℕ × V) → List (ℕ × V)
  insert k v [] = (k, v) ∷ []
  insert k v ((j, w) ∷ m) =
      let rest = (j, w) ∷ insert k v m in
      if ltb k j then (k, v) ∷ (j, w) ∷ m else if j == k then (k, v) ∷ m else rest

  -- `m.erase( m.find( k ) )`
  unfoldable pub erase : ℕ → List (ℕ × V) → List (ℕ × V)
  erase k [] = []
  erase k ((j, v) ∷ m) = let rest = (j, v) ∷ erase k m in if j == k then m else rest

  -- Writing through the pointer that is stored under `k`.
  unfoldable pub modify : ℕ → (V → V) → List (ℕ × V) → List (ℕ × V)
  modify k f [] = []
  modify k f ((j, v) ∷ m) =
      let rest = (j, v) ∷ modify k f m in if j == k then (j, f v) ∷ m else rest

  -- Every key lies above `k`, and the keys rise.
  abbrev pub Above : ℕ → List (ℕ × V) → Type 0
  Above k [] = Unit {0}
  Above k ((j, v) ∷ m) = (k < j) × Above j m

  -- What a `std::map` keeps: the keys rise, so that each stands once.
  abbrev pub IsSorted : List (ℕ × V) → Type 0
  IsSorted [] = Unit {0}
  IsSorted ((j, v) ∷ m) = Above j m

  Above-find : (k j : ℕ) (m : List (ℕ × V)) → Above k m → j ≤ k → find j m ≡ none
  unfolding find
  Above-find k j [] a h = refl
  Above-find k j ((i, v) ∷ m) a h = ground (arith, Above-find i j m a.1)

  pub Above-IsSorted : (i : ℕ) (m : List (ℕ × V)) → Above i m → IsSorted m
  Above-IsSorted i [] a = tt
  Above-IsSorted i ((j, v) ∷ m) a = a.1

  -- A lookup after an insertion.
  pub find-insert :
      (k j : ℕ) (v : V) (m : List (ℕ × V))
      → find j (insert k v m) ≡ (if k == j then some v else find j m)
  unfolding find insert
  find-insert k j v [] = refl
  find-insert k j v ((i, w) ∷ m) = ground (arith, find-insert k j v m)

  -- A lookup after a deletion.
  pub find-erase :
      (k j : ℕ) (m : List (ℕ × V))
      → IsSorted m
      → find j (erase k m) ≡ (if k == j then none else find j m)
  unfolding find erase
  find-erase k j [] a = ground arith
  find-erase k j ((i, v) ∷ m) a =
      ground (arith, find-erase k j m (Above-IsSorted i m a), Above-find i j m a)

  pub find-modify :
      (k j : ℕ) (f : V → V) (m : List (ℕ × V))
      → find j (modify k f m) ≡ (if k == j then Option.map f (find j m) else find j m)
  unfolding find modify
  find-modify k j f [] = ground arith
  find-modify k j f ((i, v) ∷ m) = ground (arith, find-modify k j f m)

  pub Above-insert :
      (b k : ℕ) (v : V) (m : List (ℕ × V)) → b < k → Above b m → Above b (insert k v m)
  unfolding insert
  Above-insert b k v [] h a = (h, tt)
  Above-insert b k v ((j, w) ∷ m) h a = ground (arith, Above-insert j k v m)

  Above-weaken : (a b : ℕ) (m : List (ℕ × V)) → a ≤ b → Above b m → Above a m
  Above-weaken a b [] h q = tt
  Above-weaken a b ((j, v) ∷ m) h q = (omega arith, q.1)

  pub Above-erase : (b k : ℕ) (m : List (ℕ × V)) → Above b m → Above b (erase k m)
  unfolding erase
  Above-erase b k [] a = tt
  Above-erase b k ((j, v) ∷ m) a = ground (arith, Above-erase j k m a.1, Above-weaken b j m)

  pub insert-IsSorted : (k : ℕ) (v : V) (m : List (ℕ × V)) → IsSorted m → IsSorted (insert k v m)
  unfolding insert
  insert-IsSorted k v [] a = tt
  insert-IsSorted k v ((j, w) ∷ m) a = ground (arith, Above-insert j k v m)

  pub erase-IsSorted : (k : ℕ) (m : List (ℕ × V)) → IsSorted m → IsSorted (erase k m)
  unfolding erase
  erase-IsSorted k [] a = tt
  erase-IsSorted k ((j, v) ∷ m) a = ground (arith, Above-erase j k m a, Above-IsSorted j m a)

  Above-modify : (b k : ℕ) (f : V → V) (m : List (ℕ × V)) → Above b m → Above b (modify k f m)
  unfolding modify
  Above-modify b k f [] a = tt
  Above-modify b k f ((j, v) ∷ m) a = ground (arith, Above-modify j k f m a.1)

  pub modify-IsSorted :
      (k : ℕ) (f : V → V) (m : List (ℕ × V)) → IsSorted m → IsSorted (modify k f m)
  unfolding modify
  modify-IsSorted k f [] a = tt
  modify-IsSorted k f ((j, v) ∷ m) a = ground (arith, Above-modify j k f m a)

  Above-last : (b k : ℕ) (v : V) (m n : List (ℕ × V)) → Above b (m ++ ((k, v) ∷ n)) → b < k
  Above-last b k v [] n a = a.0
  Above-last b k v ((j, w) ∷ m) n a = omega (arith, a.0, Above-last j k v m n a.1)

  -- A key above all others goes to the end.
  pub insert_last :
      (k : ℕ) (v : V) (m n : List (ℕ × V))
      → IsSorted (m ++ ((k, v) ∷ n))
      → insert k v m ≡ m ++ ((k, v) ∷ [])
  unfolding insert
  insert_last k v [] n a = refl
  insert_last k v ((j, w) ∷ m) n a =
      let below = Above-last j k v m n a in
      ground (arith, insert_last k v m n (Above-IsSorted j (m ++ ((k, v) ∷ n)) a))
