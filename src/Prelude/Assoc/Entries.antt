-- ===== src/Prelude/Assoc/Entries.antt =====
-- What holds of every entry of a map, and what the map's operations do to it.
use Prim.Native.Nat.{ℕ}
use mathlib.Core.Path.{◌≡◌}
use mathlib.Core.Option.{some}
use mathlib.Core.List.{List, [], ◌∷◌}
use native.Mathlib.Omega.{arith}
use net_lib_wrapper.Prelude.Assoc.{find, insert, erase, modify}

module _ {ℓ} {V : Type ℓ} where
  abbrev pub Every : (ℕ → V → Type 0) → List (ℕ × V) → Type 0
  Every P [] = Unit {0}
  Every P ((h, v) ∷ m) = P h v × Every P m

  module _ (P : ℕ → V → Type 0) where
    pub Every-find : (k : ℕ) (v : V) (m : List (ℕ × V)) → Every P m → find k m ≡ some v → P k v
    unfolding find
    Every-find k v [] a e = cc
    Every-find k v ((j, w) ∷ m) (p, a) e = ground (arith, Every-find k v m a)

    pub Every-insert :
        (k : ℕ) (v : V) (m : List (ℕ × V)) → P k v → Every P m → Every P (insert k v m)
    unfolding insert
    Every-insert k v [] p a = (p, tt)
    Every-insert k v ((j, w) ∷ m) p (q, a) = ground (arith, Every-insert k v m p a)

    pub Every-erase : (k : ℕ) (m : List (ℕ × V)) → Every P m → Every P (erase k m)
    unfolding erase
    Every-erase k [] a = tt
    Every-erase k ((j, w) ∷ m) (q, a) = ground (arith, Every-erase k m a)

    pub Every-modify :
        (k : ℕ) (v : V) (m : List (ℕ × V)) → P k v → Every P m → Every P (modify k (λ _. v) m)
    unfolding modify
    Every-modify k v [] p a = tt
    Every-modify k v ((j, w) ∷ m) p (q, a) = ground (arith, Every-modify k v m p a)

  pub Every-weaken :
      (P Q : ℕ → V → Type 0) (m : List (ℕ × V))
      → ((k : ℕ) (v : V) → P k v → Q k v)
      → Every P m
      → Every Q m
  Every-weaken P Q [] f a = tt
  Every-weaken P Q ((k, v) ∷ m) f (p, a) = (f k v p, Every-weaken P Q m f a)
