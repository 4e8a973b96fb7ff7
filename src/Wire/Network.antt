-- ===== src/Wire/Network.antt =====
-- The words of net-memory-io-base.h stand in network byte order, whatever the machine does.
use net_lib_wrapper.Prelude.{
  ℕ, zero, suc, ◌+◌, ◌*◌, ◌/◌, ◌%◌, ◌^◌, ◌<◌, ◌≡◌, refl, ap, bit_and, true, List, [], ◌∷◌, ◌++◌,
  take-length, length, arith,
}
use net_lib_wrapper.Wire.Bits.{shl, shr, and_shl, and_byte, or_shl}
use net_lib_wrapper.Wire.Endian.{ms_endian16, ms_endian32, ms_endian64, host_bytes}
use net_lib_wrapper.Wire.Endian.Reverse.{
  reversed32, reversed64, ms_endian32_lem, ms_endian64_lem, length-host_bytes,
  ms_endian32_involution, ms_endian64_involution,
}
use net_lib_wrapper.Wire.Reader.{Reader, parse_u16, parse_u32, parse_u64}
use net_lib_wrapper.Wire.Writer.{Writer, ms_append, pack_u16, pack_u32, pack_u64}
use net_lib_wrapper.Wire.RoundTrip.{Holds, parsed, Reads, word_lem}

-- The digits of a number in base 256, highest first.
unfoldable pub network_bytes : ℕ → ℕ → List ℕ
network_bytes zero n = []
network_bytes (suc k) n = network_bytes k (n / 256) ++ (n % 256 ∷ [])

ms_endian16_lem : (n : ℕ) → ms_endian16 n ≡ n % 256 * 256 + n / 256 % 256
unfolding ms_endian16
ms_endian16_lem n =
    let low : bit_and n 0xFF * 2 ^ 8 % 2 ^ 32 ≡ shl 8 (n % 256) = omega (arith, and_byte n) in
    let high : bit_and n 0xFF00 / 2 ^ 8 ≡ n / 256 % 256 =
      omega (arith, and_shl 8 n 0xFF, and_byte (shr 8 n)) in
    rw (low, high, or_shl 8 (n % 256) (n / 256 % 256) (omega arith)) (omega arith)

-- The template argument of the readers and writers.
pub data Word : Type 0 where
  uint16 uint32 uint64 : Word

abbrev pub width : Word → ℕ
width uint16 = 2
width uint32 = 4
width uint64 = 8

abbrev pub parse_at : Word → List ℕ → ℕ → Reader ℕ
parse_at uint16 = parse_u16
parse_at uint32 = parse_u32
parse_at uint64 = parse_u64

abbrev pub pack_as : Word → ℕ → Writer
pack_as uint16 = pack_u16
pack_as uint32 = pack_u32
pack_as uint64 = pack_u64

abbrev swapped : Word → ℕ → ℕ
swapped uint16 = ms_endian16
swapped uint32 = ms_endian32
swapped uint64 = ms_endian64

cons_eq : {a b : ℕ} {xs ys : List ℕ} → a ≡ b → xs ≡ ys → ◌≡◌ {A = List ℕ} (a ∷ xs) (b ∷ ys)
cons_eq p q = cc

host_bytes-swapped :
    (w : Word) (n : ℕ) → host_bytes (width w) (swapped w n) ≡ network_bytes (width w) n
unfolding host_bytes network_bytes reversed32 reversed64
host_bytes-swapped uint16 n =
    rw (ms_endian16_lem n) (cons_eq (omega arith) (cons_eq (omega arith) refl))
host_bytes-swapped uint32 n = rw (ms_endian32_lem n) (
    cons_eq (omega arith)
      (cons_eq (omega arith) (cons_eq (omega arith) (cons_eq (omega arith) refl))))
host_bytes-swapped uint64 n = rw (ms_endian64_lem n) (
    cons_eq (omega arith) (
      cons_eq (omega arith) (
        cons_eq (omega arith) (
          cons_eq (omega arith) (
            cons_eq (omega arith)
              (cons_eq (omega arith) (cons_eq (omega arith) (cons_eq (omega arith) refl))))))))

swapped_involution :
    (w : Word) (n : ℕ)
    → n < 256 ^ width w
    → (swapped w n < 256 ^ width w) × (swapped w (swapped w n) ≡ n)
swapped_involution uint16 n lt = omega (arith, ms_endian16_lem n, ms_endian16_lem (ms_endian16 n))
swapped_involution uint32 n lt = ms_endian32_involution n lt
swapped_involution uint64 n lt = ms_endian64_involution n lt

appended :
    (k n : ℕ) (buffer : List ℕ)
    → ms_append (host_bytes k n) k buffer ≡ (true, buffer ++ host_bytes k n)
unfolding ms_append
appended k n buffer =
    ap (λ (t : List ℕ). (true, buffer ++ t))
      (take-length k (host_bytes k n) (omega (arith, length-host_bytes k n)))

pack_as_lem :
    (w : Word) (n : ℕ) (buffer : List ℕ)
    → pack_as w n buffer ≡ (true, buffer ++ host_bytes (width w) (swapped w n))
unfolding pack_u16 pack_u32 pack_u64 ms_append
pack_as_lem uint16 n buffer = appended 2 (ms_endian16 n) buffer
pack_as_lem uint32 n buffer = appended 4 (ms_endian32 n) buffer
pack_as_lem uint64 n buffer = appended 8 (ms_endian64 n) buffer

parse_at-Reads :
    (w : Word) (n : ℕ)
    → n < 256 ^ width w
    → Reads (parse_at w) (host_bytes (width w) (swapped w n)) (λ _. n)
unfolding parse_u16 parse_u32 parse_u64
parse_at-Reads uint16 n lt =
    let (small, back) = swapped_involution uint16 n lt in word_lem 2 n ms_endian16 small back
parse_at-Reads uint32 n lt =
    let (small, back) = swapped_involution uint32 n lt in word_lem 4 n ms_endian32 small back
parse_at-Reads uint64 n lt =
    let (small, back) = swapped_involution uint64 n lt in word_lem 8 n ms_endian64 small back

-- pack_resp of a word that its type holds appends its digits in base 256, highest first, at each of
-- the widths 16, 32 and 64, to a buffer that stays below 2 ^ 31 bytes; and parse_req, wherever these
-- digits end within the size of a buffer of less than 2 ^ 31 bytes, gives the word back and moves
-- past them.
pub pack_as-parse_at :
    (w : Word) (n old : ℕ) (buffer pc_buffer : List ℕ) (i_size i : ℕ)
    → n < 256 ^ width w
    → length buffer + width w < 2 ^ 31
    → i_size < 2 ^ 31
    → Holds pc_buffer i_size i (network_bytes (width w) n)
    → (pack_as w n buffer ≡ (true, buffer ++ network_bytes (width w) n))
      × (parse_at w pc_buffer i_size i old
          ≡ record { ok = true; i_offset = i + width w; value = n })
pack_as-parse_at w n old buffer pc_buffer i_size i lt small short h =
    let same = host_bytes-swapped w n in
    let held : Holds pc_buffer i_size i (host_bytes (width w) (swapped w n)) = rw same h in
    let read = parse_at-Reads w n lt pc_buffer i_size i old held in
    (
      rw (pack_as_lem w n buffer, same) refl,
      rw read (ap (λ (k : ℕ). parsed (i + k) n) (length-host_bytes (width w) (swapped w n))),
    )
