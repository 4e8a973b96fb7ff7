-- ===== src/Wire/Bits.antt =====
-- Masks and shifts of words as arithmetic.
use Prim.Native.Nat.{min, max, digits, bit_and-bitwise, bit_or-bitwise}
use net_lib_wrapper.Prelude.{
  ℕ, zero, suc, ◌+◌, ◌*◌, ◌/◌, ◌%◌, ◌≤◌, ◌<◌, bit_and, bit_or, ◌≡◌, refl, arith,
}

-- The recursion on digits does not depend on its count, if the count is enough.
module _ (z : ℕ → ℕ) (f : ℕ → ℕ → ℕ) where
  same_digits : (n m a b : ℕ) → a ≤ n → a ≤ m → digits z f n a b ≡ digits z f m a b
  same_digits zero zero a b p q = refl
  same_digits zero (suc m) zero b p q = refl
  same_digits zero (suc m) (suc a) b p q = absurd (omega arith)
  same_digits (suc n) zero zero b p q = refl
  same_digits (suc n) zero (suc a) b p q = absurd (omega arith)
  same_digits (suc n) (suc m) zero b p q = refl
  same_digits (suc n) (suc m) (suc a) b p q =
      rw (same_digits n m (suc a / 2) (b / 2) (omega arith) (omega arith))

-- The lowest digit.
and_step : (a b : ℕ) → bit_and a b ≡ bit_and (a / 2) (b / 2) * 2 + min (a % 2) (b % 2)
and_step zero b = omega (arith, bit_and-bitwise 0 b, bit_and-bitwise 0 (b / 2))
and_step (suc a) b = omega (
  arith,
  bit_and-bitwise (suc a) b,
  bit_and-bitwise (suc a / 2) (b / 2),
  same_digits (λ y. 0) min a (suc a / 2) (suc a / 2) (b / 2) (omega arith) (omega arith),
)

or_step : (a b : ℕ) → bit_or a b ≡ bit_or (a / 2) (b / 2) * 2 + max (a % 2) (b % 2)
or_step zero b = omega (arith, bit_or-bitwise 0 b, bit_or-bitwise 0 (b / 2))
or_step (suc a) b = omega (
  arith,
  bit_or-bitwise (suc a) b,
  bit_or-bitwise (suc a / 2) (b / 2),
  same_digits (λ y. y) max a (suc a / 2) (suc a / 2) (b / 2) (omega arith) (omega arith),
)

-- Shifts, digit by digit.
abbrev pub shl : ℕ → ℕ → ℕ
shl zero a = a
shl (suc k) a = shl k a * 2

abbrev pub shr : ℕ → ℕ → ℕ
shr zero a = a
shr (suc k) a = shr k (a / 2)

and_double : (a m : ℕ) → bit_and a (m * 2) ≡ bit_and (a / 2) m * 2
and_double a m =
    let half : m * 2 / 2 ≡ m = omega arith in
    let step = and_step a (m * 2) in rw (step, half) (omega arith)

-- A mask with `k` zeros at its end.
pub and_shl : (k a m : ℕ) → bit_and a (shl k m) ≡ shl k (bit_and (shr k a) m)
and_shl zero a m = refl
and_shl (suc k) a m = omega (arith, and_double a (shl k m), and_shl k (a / 2) m)

and_zero : (n a : ℕ) → a ≤ n → bit_and a 0 ≡ 0
and_zero n zero h = refl
and_zero zero (suc a) h = absurd (omega arith)
and_zero (suc n) (suc a) h = omega (arith, and_step (suc a) 0, and_zero n (suc a / 2) (omega arith))

and_odd : (a m : ℕ) → bit_and a (m * 2 + 1) ≡ bit_and (a / 2) m * 2 + a % 2
and_odd a m =
    let half : (m * 2 + 1) / 2 ≡ m = omega arith in
    let step = and_step a (m * 2 + 1) in rw (step, half) (omega arith)

and_nibble : (a : ℕ) → bit_and a 0xf ≡ a % 16
and_nibble a = omega (
  arith,
  and_odd a 0x7,
  and_odd (a / 2) 0x3,
  and_odd (a / 2 / 2) 0x1,
  and_odd (a / 2 / 2 / 2) 0,
  and_zero (a / 16) (a / 2 / 2 / 2 / 2) (omega arith),
)

-- The lowest byte.
pub and_byte : (a : ℕ) → bit_and a 0xff ≡ a % 256
and_byte a = omega (
  arith,
  and_odd a 0x7f,
  and_odd (a / 2) 0x3f,
  and_odd (a / 2 / 2) 0x1f,
  and_odd (a / 2 / 2 / 2) 0xf,
  and_nibble (a / 2 / 2 / 2 / 2),
)

or_zero : (n a : ℕ) → a ≤ n → bit_or a 0 ≡ a
or_zero n zero h = refl
or_zero zero (suc a) h = absurd (omega arith)
or_zero (suc n) (suc a) h = omega (arith, or_step (suc a) 0, or_zero n (suc a / 2) (omega arith))

-- The or of numbers that share no digit is their sum.
pub or_shl : (k a b : ℕ) → b < shl k 1 → bit_or (shl k a) b ≡ shl k a + b
or_shl zero a zero lt = omega (arith, or_zero a a (omega arith))
or_shl zero a (suc b) lt = absurd (omega arith)
or_shl (suc k) a b lt =
    let half : shl k a * 2 / 2 ≡ shl k a = omega arith in
    let step = or_step (shl k a * 2) b in
    rw (step, half) (omega (arith, or_shl k a (b / 2) (omega arith)))
