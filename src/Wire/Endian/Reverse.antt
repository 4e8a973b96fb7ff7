-- ===== src/Wire/Endian/Reverse.antt =====
-- ms_endian reverses the bytes of a word.
use net_lib_wrapper.Prelude.{
  ℕ, zero, suc, ◌+◌, ◌*◌, ◌/◌, ◌%◌, ◌^◌, ◌<◌, bit_and, ◌≡◌, refl, length, arith,
}
use net_lib_wrapper.Wire.Bits.{shl, shr, and_shl, and_byte, or_shl}
use net_lib_wrapper.Wire.Endian.{ms_endian32, ms_endian64, host_bytes, host_value}

byte_8 : (n : ℕ) → bit_and n 0xff00 ≡ n / 256 % 256 * 256
byte_8 n = omega (arith, and_shl 8 n 0xFF, and_byte (shr 8 n))

byte_16 : (n : ℕ) → bit_and n 0xff0000 ≡ n / 65536 % 256 * 65536
byte_16 n = omega (arith, and_shl 16 n 0xFF, and_byte (shr 16 n))

byte_24 : (n : ℕ) → bit_and n 0xff000000 ≡ n / 16777216 % 256 * 16777216
byte_24 n = omega (arith, and_shl 24 n 0xFF, and_byte (shr 24 n))

byte_32 : (n : ℕ) → bit_and n 0xff00000000 ≡ n / 4294967296 % 256 * 4294967296
byte_32 n = omega (arith, and_shl 32 n 0xFF, and_byte (shr 32 n))

byte_40 : (n : ℕ) → bit_and n 0xff0000000000 ≡ n / 1099511627776 % 256 * 1099511627776
byte_40 n = omega (arith, and_shl 40 n 0xFF, and_byte (shr 40 n))

byte_48 : (n : ℕ) → bit_and n 0xff000000000000 ≡ n / 281474976710656 % 256 * 281474976710656
byte_48 n = omega (arith, and_shl 48 n 0xFF, and_byte (shr 48 n))

byte_56 : (n : ℕ) → bit_and n 0xff00000000000000 ≡ n / 72057594037927936 % 256 * 72057594037927936
byte_56 n = omega (arith, and_shl 56 n 0xFF, and_byte (shr 56 n))

-- The bytes of a word in reverse, as a sum.
unfoldable pub reversed32 : ℕ → ℕ
reversed32 n =
    n % 256 * 16777216 + n / 256 % 256 * 65536 + n / 65536 % 256 * 256 + n / 16777216 % 256

unfoldable pub reversed64 : ℕ → ℕ
reversed64 n =
    n % 256 * 72057594037927936
    + n / 256 % 256 * 281474976710656
    + n / 65536 % 256 * 1099511627776
    + n / 16777216 % 256 * 4294967296
    + n / 4294967296 % 256 * 16777216
    + n / 1099511627776 % 256 * 65536
    + n / 281474976710656 % 256 * 256
    + n / 72057594037927936 % 256

pub ms_endian32_lem : (n : ℕ) → ms_endian32 n ≡ reversed32 n
unfolding ms_endian32 reversed32
ms_endian32_lem n =
    let b0 = n % 256 in
    let b1 = n / 256 % 256 in
    let b2 = n / 65536 % 256 in
    let b3 = n / 16777216 % 256 in
    let t0 : b0 * 2 ^ 24 % 2 ^ 32 ≡ shl 24 b0 = omega arith in
    let t1 : b1 * 256 * 2 ^ 8 % 2 ^ 32 ≡ b1 * 65536 = omega arith in
    let t2 : b2 * 65536 / 2 ^ 8 ≡ b2 * 256 = omega arith in
    let t3 : b3 * 16777216 / 2 ^ 24 ≡ b3 = omega arith in
    let o1 = or_shl 24 b0 (b1 * 65536) (omega arith) in
    let s1 : shl 24 b0 + b1 * 65536 ≡ shl 16 (b0 * 256 + b1) = omega arith in
    let o2 = or_shl 16 (b0 * 256 + b1) (b2 * 256) (omega arith) in
    let s2 : shl 16 (b0 * 256 + b1) + b2 * 256 ≡ shl 8 (b0 * 65536 + b1 * 256 + b2) = omega arith in
    let o3 = or_shl 8 (b0 * 65536 + b1 * 256 + b2) b3 (omega arith) in
    rw (and_byte n, byte_8 n, byte_16 n, byte_24 n, t0, t1, t2, t3, o1, s1, o2, s2, o3)
      (omega arith)

pub ms_endian64_lem : (n : ℕ) → ms_endian64 n ≡ reversed64 n
unfolding ms_endian64 reversed64
ms_endian64_lem n =
    let b0 = n % 256 in
    let b1 = n / 256 % 256 in
    let b2 = n / 65536 % 256 in
    let b3 = n / 16777216 % 256 in
    let b4 = n / 4294967296 % 256 in
    let b5 = n / 1099511627776 % 256 in
    let b6 = n / 281474976710656 % 256 in
    let b7 = n / 72057594037927936 % 256 in
    let t0 : b0 * 2 ^ 56 % 2 ^ 64 ≡ shl 56 b0 = omega arith in
    let t1 : b1 * 256 * 2 ^ 40 % 2 ^ 64 ≡ b1 * 281474976710656 = omega arith in
    let t2 : b2 * 65536 * 2 ^ 24 % 2 ^ 64 ≡ b2 * 1099511627776 = omega arith in
    let t3 : b3 * 16777216 * 2 ^ 8 % 2 ^ 64 ≡ b3 * 4294967296 = omega arith in
    let t4 : b4 * 4294967296 / 2 ^ 8 ≡ b4 * 16777216 = omega arith in
    let t5 : b5 * 1099511627776 / 2 ^ 24 ≡ b5 * 65536 = omega arith in
    let t6 : b6 * 281474976710656 / 2 ^ 40 ≡ b6 * 256 = omega arith in
    let t7 : b7 * 72057594037927936 / 2 ^ 56 ≡ b7 = omega arith in
    let o1 = or_shl 56 b0 (b1 * 281474976710656) (omega arith) in
    let s1 : shl 56 b0 + b1 * 281474976710656 ≡ shl 48 (b0 * 256 + b1) = omega arith in
    let o2 = or_shl 48 (b0 * 256 + b1) (b2 * 1099511627776) (omega arith) in
    let s2 : shl 48 (b0 * 256 + b1) + b2 * 1099511627776 ≡ shl 40 (b0 * 65536 + b1 * 256 + b2) =
      omega arith in
    let o3 = or_shl 40 (b0 * 65536 + b1 * 256 + b2) (b3 * 4294967296) (omega arith) in
    let s3 : shl 40 (b0 * 65536 + b1 * 256 + b2) + b3 * 4294967296
        ≡ shl 32 (b0 * 16777216 + b1 * 65536 + b2 * 256 + b3) =
      omega arith in
    let o4 = or_shl 32 (b0 * 16777216 + b1 * 65536 + b2 * 256 + b3) (b4 * 16777216) (omega arith) in
    let s4 : shl 32 (b0 * 16777216 + b1 * 65536 + b2 * 256 + b3) + b4 * 16777216
        ≡ shl 24 (b0 * 4294967296 + b1 * 16777216 + b2 * 65536 + b3 * 256 + b4) =
      omega arith in
    let o5 =
      or_shl 24 (b0 * 4294967296 + b1 * 16777216 + b2 * 65536 + b3 * 256 + b4) (b5 * 65536)
        (omega arith) in
    let s5 : shl 24 (b0 * 4294967296 + b1 * 16777216 + b2 * 65536 + b3 * 256 + b4) + b5 * 65536
        ≡ shl 16
            (b0 * 1099511627776 + b1 * 4294967296 + b2 * 16777216 + b3 * 65536 + b4 * 256 + b5) =
      omega arith in
    let o6 =
      or_shl 16 (b0 * 1099511627776 + b1 * 4294967296 + b2 * 16777216 + b3 * 65536 + b4 * 256 + b5)
        (b6 * 256) (omega arith) in
    let s6 : shl 16
            (b0 * 1099511627776 + b1 * 4294967296 + b2 * 16777216 + b3 * 65536 + b4 * 256 + b5)
          + b6 * 256
        ≡ shl 8 (
            b0 * 281474976710656
            + b1 * 1099511627776
            + b2 * 4294967296
            + b3 * 16777216
            + b4 * 65536
            + b5 * 256
            + b6) =
      omega arith in
    let o7 =
      or_shl 8
        (b0 * 281474976710656
          + b1 * 1099511627776
          + b2 * 4294967296
          + b3 * 16777216
          + b4 * 65536
          + b5 * 256
          + b6)
        b7 (omega arith) in
    rw
      (
        and_byte n,
        byte_8 n,
        byte_16 n,
        byte_24 n,
        byte_32 n,
        byte_40 n,
        byte_48 n,
        byte_56 n,
        t0,
        t1,
        t2,
        t3,
        t4,
        t5,
        t6,
        t7,
        o1,
        s1,
        o2,
        s2,
        o3,
        s3,
        o4,
        s4,
        o5,
        s5,
        o6,
        s6,
        o7,
      )
      (omega arith)

-- ms_endian of a word of 32 bits has 32 bits, and ms_endian of that is the word again.
pub ms_endian32_involution :
    (n : ℕ) → n < 2 ^ 32 → (ms_endian32 n < 2 ^ 32) × (ms_endian32 (ms_endian32 n) ≡ n)
unfolding reversed32
ms_endian32_involution n lt =
    let once = ms_endian32_lem n in
    let twice = ms_endian32_lem (reversed32 n) in rw (once, twice) (omega arith, omega arith)

-- ms_endian of a word of 64 bits has 64 bits, and ms_endian of that is the word again.
pub ms_endian64_involution :
    (n : ℕ) → n < 2 ^ 64 → (ms_endian64 n < 2 ^ 64) × (ms_endian64 (ms_endian64 n) ≡ n)
unfolding reversed64
ms_endian64_involution n lt =
    let once = ms_endian64_lem n in
    let twice = ms_endian64_lem (reversed64 n) in rw (once, twice) (omega arith, omega arith)

-- A word comes back from its bytes in memory.
pub host_value-host_bytes : (k n : ℕ) → n < 256 ^ k → host_value (host_bytes k n) ≡ n
unfolding host_value host_bytes
host_value-host_bytes zero n lt = omega arith
host_value-host_bytes (suc k) n lt =
    let fits : n / 256 < 256 ^ k = omega arith in
    omega (arith, host_value-host_bytes k (n / 256) fits)

pub length-host_bytes : (k n : ℕ) → length (host_bytes k n) ≡ k
unfolding host_bytes
length-host_bytes zero n = refl
length-host_bytes (suc k) n = omega (arith, length-host_bytes k (n / 256))
