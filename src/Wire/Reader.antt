-- ===== src/Wire/Reader.antt =====
-- The parse_req overloads of net-memory-io-base.h over a buffer. A reader takes the offset and the
-- variable that it assigns, and gives them back with its result.
use net_lib_wrapper.Prelude.{
  ℕ, zero, suc, ◌+◌, ◌^◌, Bool, true, false, ◌&&◌, ◌||◌, List, [], ltb, leb, if◌then◌else◌, take,
  drop,
}
use net_lib_wrapper.Prelude.Assoc
use net_lib_wrapper.Wire.Endian.{ms_endian16, ms_endian32, ms_endian64, host_value}

-- The result, `i_offset` and the variable after a call.
pub record Parsed (A : Type 0) : Type 0 where
  pub ok : Bool
  pub i_offset : ℕ
  pub value : A

abbrev pub Reader : Type 0 → Type 0
Reader A = ℕ → A → Parsed A

-- `p && q` for two calls on parts of one structure.
infixr 40 ◌then◌
unfoldable pub ◌then◌ : {A : Type 0} → Reader A → Reader A → Reader A
(p then q) i s = let a = p i s in let b = q a.i_offset a.value in if a.ok then b else a

-- A call on a member of a structure.
unfoldable pub member : {A S : Type 0} → (S → A) → (A → S → S) → Reader A → Reader S
member get put p i s =
    let a = p i (get s) in record { ok = a.ok; i_offset = a.i_offset; value = put a.value s }

module _ (pc_buffer : List ℕ) (i_size : ℕ) where
  -- The overloads with an array or a string, and `i_output_size`, which is an INT32.
  unfoldable pub parse_bytes : ℕ → Reader (List ℕ)
  parse_bytes i_output_size i old =
      if ltb i_output_size (2 ^ 31) && leb (i + i_output_size) i_size
      then record {
        ok = true;
        i_offset = i + i_output_size;
        value = take i_output_size (drop i pc_buffer);
      }
      else record { ok = false; i_offset = i; value = old }

  -- The template at a type of `k` bytes. `i_size - i_offset` is compared as an unsigned number, so
  -- an offset past the end passes the test.
  unfoldable pub parse_word : ℕ → (ℕ → ℕ) → Reader ℕ
  parse_word k swap i old =
      if leb (i + k) i_size || ltb i_size i
      then record {
        ok = true;
        i_offset = i + k;
        value = swap (host_value (take k (drop i pc_buffer)));
      }
      else record { ok = false; i_offset = i; value = old }

  unfoldable pub parse_u8 : Reader ℕ
  parse_u8 = parse_word 1 (λ n. n)

  unfoldable pub parse_u16 : Reader ℕ
  parse_u16 = parse_word 2 ms_endian16

  unfoldable pub parse_u32 : Reader ℕ
  parse_u32 = parse_word 4 ms_endian32

  unfoldable pub parse_u64 : Reader ℕ
  parse_u64 = parse_word 8 ms_endian64

  -- A float, as the word of its 32 bits, which ms_endian leaves as it is.
  unfoldable pub parse_f32 : Reader ℕ
  parse_f32 = parse_word 4 (λ n. n)

  -- A string with its length before it.
  unfoldable pub parse_string : Reader (List ℕ)
  parse_string i old =
      let n = parse_u32 i 0 in
      let s = parse_bytes n.value n.i_offset old in
      if n.ok then s else record { ok = false; i_offset = n.i_offset; value = old }

  -- The loop over the entries of a map, with `ui_ana_no` and the value as the last round left them.
  unfoldable pub parse_entries :
      {V : Type 0} → Reader V → ℕ → ℕ → ℕ → V → List (ℕ × V) → Parsed (List (ℕ × V))
  parse_entries p zero i key v m = record { ok = true; i_offset = i; value = m }
  parse_entries p (suc n) i key v m =
      let a = parse_u32 i key in
      let b = p a.i_offset v in
      parse_entries p n b.i_offset a.value b.value (Assoc.insert a.value b.value m)

  -- The maps from UINT32 to UINT64 and to strings. The results of the calls inside are not read.
  unfoldable pub parse_map : {V : Type 0} → Reader V → V → Reader (List (ℕ × V))
  parse_map p empty i old = let c = parse_u32 i 0 in parse_entries p c.value c.i_offset 0 empty []
