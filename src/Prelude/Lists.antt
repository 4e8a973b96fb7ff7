-- ===== src/Prelude/Lists.antt =====
-- Lists measured and cut by native numbers, under the library's names.
use Prim.Native.Nat.{ℕ, zero, suc, ◌+◌, ◌-◌, ◌≤◌, min}
use mathlib.Core.Path.{◌≡◌, refl, ap}
use mathlib.Core.List.{List, [], ◌∷◌, ◌++◌}
use native.Mathlib.Omega.{arith}

module _ {ℓ} {A : Type ℓ} where
  abbrev pub length : List A → ℕ
  length [] = 0
  length (x ∷ xs) = suc (length xs)

  abbrev pub get_or : List A → ℕ → A → A
  get_or [] i d = d
  get_or (x ∷ xs) zero d = x
  get_or (x ∷ xs) (suc i) d = get_or xs i d

  abbrev pub take : ℕ → List A → List A
  take zero xs = []
  take (suc n) [] = []
  take (suc n) (x ∷ xs) = x ∷ take n xs

  abbrev pub drop : ℕ → List A → List A
  drop zero xs = xs
  drop (suc n) [] = []
  drop (suc n) (x ∷ xs) = drop n xs

  abbrev pub All {κ} : (A → Type κ) → List A → Type κ
  All P [] = Unit {κ}
  All P (x ∷ xs) = P x × All P xs

  pub length-append : (xs ys : List A) → length (xs ++ ys) ≡ length xs + length ys
  length-append [] ys = omega arith
  length-append (x ∷ xs) ys = omega (arith, length-append xs ys)

  pub take-append-drop : (n : ℕ) (xs : List A) → take n xs ++ drop n xs ≡ xs
  take-append-drop zero xs = refl
  take-append-drop (suc n) [] = refl
  take-append-drop (suc n) (x ∷ xs) = rw (take-append-drop n xs)

  pub length-take : (n : ℕ) (xs : List A) → length (take n xs) ≡ min n (length xs)
  length-take zero xs = omega arith
  length-take (suc n) [] = omega arith
  length-take (suc n) (x ∷ xs) = omega (arith, length-take n xs)

  pub length-drop : (n : ℕ) (xs : List A) → length (drop n xs) ≡ length xs - n
  length-drop zero xs = omega arith
  length-drop (suc n) [] = omega arith
  length-drop (suc n) (x ∷ xs) = omega (arith, length-drop n xs)

  pub drop-length : (n : ℕ) (xs : List A) → length xs ≤ n → drop n xs ≡ []
  drop-length zero [] h = refl
  drop-length zero (x ∷ xs) h = absurd (omega arith)
  drop-length (suc n) [] h = refl
  drop-length (suc n) (x ∷ xs) h = drop-length n xs (omega arith)

  pub take-length : (n : ℕ) (xs : List A) → length xs ≤ n → take n xs ≡ xs
  take-length zero [] h = refl
  take-length zero (x ∷ xs) h = absurd (omega arith)
  take-length (suc n) [] h = refl
  take-length (suc n) (x ∷ xs) h = ap (◌∷◌ x) (take-length n xs (omega arith))

  pub drop-drop : (m n : ℕ) (xs : List A) → drop n (drop m xs) ≡ drop (m + n) xs
  drop-drop zero n xs = rw (zero-plus n)
    where
      zero-plus : (k : ℕ) → zero + k ≡ k
      zero-plus k = omega arith
  drop-drop (suc m) zero [] = rw (plus-suc m)
    where
      plus-suc : (k : ℕ) → suc k + zero ≡ suc k
      plus-suc k = omega arith
  drop-drop (suc m) (suc n) [] = rw (plus-suc m)
    where
      plus-suc : (k : ℕ) → suc k + suc n ≡ suc (k + suc n)
      plus-suc k = omega arith
  drop-drop (suc m) n (x ∷ xs) = rw (suc-plus m) (drop-drop m n xs)
    where
      suc-plus : (k : ℕ) → suc k + n ≡ suc (k + n)
      suc-plus k = omega arith

  pub take-append-take : (m n : ℕ) (xs : List A) → take m xs ++ take n (drop m xs) ≡ take (m + n) xs
  take-append-take zero n xs = rw (zero-plus n)
    where
      zero-plus : (k : ℕ) → zero + k ≡ k
      zero-plus k = omega arith
  take-append-take (suc m) zero [] = rw (plus-suc m)
    where
      plus-suc : (k : ℕ) → suc k + zero ≡ suc (k + zero)
      plus-suc k = omega arith
  take-append-take (suc m) (suc n) [] = rw (plus-suc m)
    where
      plus-suc : (k : ℕ) → suc k + suc n ≡ suc (k + suc n)
      plus-suc k = omega arith
  take-append-take (suc m) n (x ∷ xs) = rw (suc-plus m, take-append-take m n xs)
    where
      suc-plus : (k : ℕ) → suc k + n ≡ suc (k + n)
      suc-plus k = omega arith

  pub take_append_lem : (xs ys : List A) → take (length xs) (xs ++ ys) ≡ xs
  take_append_lem [] ys = refl
  take_append_lem (x ∷ xs) ys = ap (◌∷◌ x) (take_append_lem xs ys)

  pub drop_append_lem : (xs ys : List A) → drop (length xs) (xs ++ ys) ≡ ys
  drop_append_lem [] ys = refl
  drop_append_lem (x ∷ xs) ys = drop_append_lem xs ys
