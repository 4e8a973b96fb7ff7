-- ===== src/Wire/Endian.antt =====
-- ms_endian.h: the byte order of words. `host_bytes` and `host_value` are how a little-endian
-- machine keeps a word in memory.
pub mod Reverse
use net_lib_wrapper.Prelude.{ℕ, zero, suc, ◌+◌, ◌*◌, ◌/◌, ◌%◌, ◌^◌, bit_and, bit_or, List, [], ◌∷◌}

-- The template at UINT16, INT16.
unfoldable pub ms_endian16 : ℕ → ℕ
ms_endian16 n = bit_or (bit_and n 0xFF * 2 ^ 8 % 2 ^ 32) (bit_and n 0xFF00 / 2 ^ 8) % 2 ^ 16

-- At UINT32, INT32.
unfoldable pub ms_endian32 : ℕ → ℕ
ms_endian32 n =
    bit_or
      (bit_or (bit_or (bit_and n 0xFF * 2 ^ 24 % 2 ^ 32) (bit_and n 0xFF00 * 2 ^ 8 % 2 ^ 32))
        (bit_and n 0xFF0000 / 2 ^ 8))
      (bit_and n 0xFF000000 / 2 ^ 24)

-- At UINT64, INT64.
unfoldable pub ms_endian64 : ℕ → ℕ
ms_endian64 n =
    bit_or
      (bit_or
        (bit_or
          (bit_or
            (bit_or
              (bit_or
                (bit_or (bit_and n 0xFF * 2 ^ 56 % 2 ^ 64) (bit_and n 0xFF00 * 2 ^ 40 % 2 ^ 64))
                (bit_and n 0xFF0000 * 2 ^ 24 % 2 ^ 64))
              (bit_and n 0xFF000000 * 2 ^ 8 % 2 ^ 64))
            (bit_and n 0xFF00000000 / 2 ^ 8))
          (bit_and n 0xFF0000000000 / 2 ^ 24))
        (bit_and n 0xFF000000000000 / 2 ^ 40))
      (bit_and n 0xFF00000000000000 / 2 ^ 56)

-- A word of `k` bytes in memory, lowest byte first.
unfoldable pub host_bytes : ℕ → ℕ → List ℕ
host_bytes zero n = []
host_bytes (suc k) n = n % 256 ∷ host_bytes k (n / 256)

unfoldable pub host_value : List ℕ → ℕ
host_value [] = 0
host_value (b ∷ bs) = b + host_value bs * 256
