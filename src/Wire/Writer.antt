-- ===== src/Wire/Writer.antt =====
-- The pack_resp overloads and ms_append of net-memory-io-base.h. A writer takes the buffer and gives
-- it back with its result.
use net_lib_wrapper.Prelude.{
  ℕ, ◌+◌, ◌^◌, ◌%◌, Bool, true, false, ◌&&◌, List, [], ◌∷◌, ◌++◌, ltb, leb, if◌then◌else◌, length,
  take, drop,
}
use net_lib_wrapper.Wire.Endian.{ms_endian16, ms_endian32, ms_endian64, host_bytes}

abbrev pub Writer : Type 0
Writer = List ℕ → Bool × List ℕ

-- `p && q`: the second call is made if the first succeeds.
infixr 40 ◌also◌
unfoldable pub ◌also◌ : Writer → Writer → Writer
(p also q) buffer = let a = p buffer in let b = q a.1 in if a.0 then b else a

-- `ms_append`, for a buffer of less than 2 ^ 31 bytes after the call: `i_old_size` is an INT32.
unfoldable pub ms_append : List ℕ → ℕ → Writer
ms_append pc_data ui_data_size buffer = (true, buffer ++ take ui_data_size pc_data)

unfoldable pub pack_bytes : List ℕ → ℕ → Writer
pack_bytes pc_data ui_data_size = ms_append pc_data ui_data_size

-- The template at words.
unfoldable pub pack_u8 : ℕ → Writer
pack_u8 n = ms_append (host_bytes 1 n) 1

unfoldable pub pack_u16 : ℕ → Writer
pack_u16 n = ms_append (host_bytes 2 (ms_endian16 n)) 2

unfoldable pub pack_u32 : ℕ → Writer
pack_u32 n = ms_append (host_bytes 4 (ms_endian32 n)) 4

unfoldable pub pack_u64 : ℕ → Writer
pack_u64 n = ms_append (host_bytes 8 (ms_endian64 n)) 8

-- A float, as the word of its 32 bits, which ms_endian leaves as it is.
unfoldable pub pack_f32 : ℕ → Writer
pack_f32 n = ms_append (host_bytes 4 n) 4

-- A string with its size, which both calls take as 32 bits.
unfoldable pub pack_string : List ℕ → Writer
pack_string s_value buffer =
    let size = length s_value % 2 ^ 32 in
    (true, (ms_append s_value size (pack_u32 size buffer).1).1)

-- A string in a field of `ui_data_size` bytes.
unfoldable pub pack_field : List ℕ → ℕ → Writer
pack_field s_value ui_data_size buffer =
    if ltb (length s_value) ui_data_size
    then (false, buffer)
    else (true, (ms_append s_value ui_data_size buffer).1)

-- The loop over the entries of a map: `b_ret &=` makes every call.
unfoldable pub pack_entries : {V : Type 0} → (V → Writer) → List (ℕ × V) → Writer
pack_entries pack [] buffer = (true, buffer)
pack_entries pack ((k, v) ∷ m) buffer =
    let a = pack_u32 k buffer in
    let b = pack v a.1 in let rest = pack_entries pack m b.1 in (a.0 && b.0 && rest.0, rest.1)

unfoldable pub pack_map : {V : Type 0} → (V → Writer) → List (ℕ × V) → Writer
pack_map pack m buffer =
    let c = pack_u32 (length m % 2 ^ 32) buffer in
    let rest = pack_entries pack m c.1 in (c.0 && rest.0, rest.1)

-- The overload that writes into a buffer: `n` bytes at `i_offset`, if they fit.
unfoldable pub pack_at : ℕ → List ℕ → ℕ → Writer
pack_at i_offset pc_data ui_data_size buffer =
    if leb (i_offset + ui_data_size) (length buffer)
    then (
      true,
      take i_offset buffer ++ take ui_data_size pc_data ++ drop (i_offset + ui_data_size) buffer,
    )
    else (false, buffer)
