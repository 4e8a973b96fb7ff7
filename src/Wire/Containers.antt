-- ===== src/Wire/Containers.antt =====
-- Round trips of words, strings and maps.
use net_lib_wrapper.Prelude.{
  ℕ, ◌+◌, ◌^◌, ◌%◌, ◌<◌, ◌≡◌, refl, ap, true, List, [], ◌∷◌, ◌++◌, append_assoc, length, arith,
  length-append, take-length,
}
use net_lib_wrapper.Wire.Endian.{ms_endian32, ms_endian64, host_bytes}
use net_lib_wrapper.Wire.Endian.Reverse.{
  ms_endian32_involution, ms_endian64_involution, length-host_bytes,
}
use net_lib_wrapper.Wire.Reader.{parse_u32, parse_u64, parse_string}
use net_lib_wrapper.Wire.Writer.{ms_append, pack_u32, pack_u64, pack_string}
use net_lib_wrapper.Wire.RoundTrip.{
  parsed, Writes, Reads, Holds-append, word_lem, parse_bytes-Reads,
}

-- What stands in the buffer for a word, a string and a map.
unfoldable pub u32_bytes : ℕ → List ℕ
u32_bytes n = host_bytes 4 (ms_endian32 n)

unfoldable pub u64_bytes : ℕ → List ℕ
u64_bytes n = host_bytes 8 (ms_endian64 n)

unfoldable pub string_bytes : List ℕ → List ℕ
string_bytes s = u32_bytes (length s) ++ s

unfoldable pub entries_bytes : {V : Type 0} → (V → List ℕ) → List (ℕ × V) → List ℕ
entries_bytes encode [] = []
entries_bytes encode ((k, v) ∷ m) = u32_bytes k ++ (encode v ++ entries_bytes encode m)

unfoldable pub map_bytes : {V : Type 0} → (V → List ℕ) → List (ℕ × V) → List ℕ
map_bytes encode m = u32_bytes (length m) ++ entries_bytes encode m

pub pack_u32-Writes : (n : ℕ) → Writes (pack_u32 n) (u32_bytes n)
unfolding pack_u32 ms_append u32_bytes
pack_u32-Writes n buf =
    ap (λ (t : List ℕ). (true, buf ++ t))
      (take-length 4 (host_bytes 4 (ms_endian32 n))
        (omega (arith, length-host_bytes 4 (ms_endian32 n))))

pub pack_u64-Writes : (n : ℕ) → Writes (pack_u64 n) (u64_bytes n)
unfolding pack_u64 ms_append u64_bytes
pack_u64-Writes n buf =
    ap (λ (t : List ℕ). (true, buf ++ t))
      (take-length 8 (host_bytes 8 (ms_endian64 n))
        (omega (arith, length-host_bytes 8 (ms_endian64 n))))

pub parse_u32-Reads : (n : ℕ) → n < 2 ^ 32 → Reads parse_u32 (u32_bytes n) (λ _. n)
unfolding parse_u32 u32_bytes
parse_u32-Reads n lt =
    let (small, back) = ms_endian32_involution n lt in word_lem 4 n ms_endian32 small back

pub parse_u64-Reads : (n : ℕ) → n < 2 ^ 64 → Reads parse_u64 (u64_bytes n) (λ _. n)
unfolding parse_u64 u64_bytes
parse_u64-Reads n lt =
    let (small, back) = ms_endian64_involution n lt in word_lem 8 n ms_endian64 small back

pub pack_string-Writes : (s : List ℕ) → length s < 2 ^ 31 → Writes (pack_string s) (string_bytes s)
unfolding pack_string ms_append string_bytes
pack_string-Writes s lt buf =
    let size : length s % 2 ^ 32 ≡ length s = omega arith in
    rw (size, pack_u32-Writes (length s) buf, take-length (length s) s (omega arith))
      (ap (λ (t : List ℕ). (true, t)) (append_assoc buf (u32_bytes (length s)) s))

pub parse_string-Reads :
    (s : List ℕ) → length s < 2 ^ 31 → Reads parse_string (string_bytes s) (λ _. s)
unfolding parse_string string_bytes
parse_string-Reads s lt buf size i old h =
    let (hn, hs) = Holds-append buf size i (u32_bytes (length s)) s h in
    let first = parse_u32-Reads (length s) (omega arith) buf size i 0 hn in
    let second =
      parse_bytes-Reads s (length s) refl lt buf size (i + length (u32_bytes (length s))) old hs in
    rw (first, second)
      (ap (λ (n : ℕ). parsed n s) (omega (arith, length-append (u32_bytes (length s)) s)))
