-- ===== src/Wire/Lists.antt =====
-- The parse_req and pack_resp overloads of net-memory-io-base.h for sets, arrays and std::vector, and
-- the loop over a std::list that net-packet.h writes out for each type of element.
use net_lib_wrapper.Prelude.{
  ℕ, zero, suc, ◌^◌, ◌%◌, true, false, ◌&&◌, Option, none, some, List, [], ◌∷◌, ◌++◌, ltb, ◌==◌,
  if◌then◌else◌, length, drop,
}
use net_lib_wrapper.Prelude.Assoc
use net_lib_wrapper.Wire.Reader.{Parsed, Reader, parse_bytes, parse_word, parse_u32}
use net_lib_wrapper.Wire.Writer.{Writer, pack_u32}

-- A `std::set<UINT32>`: its members in order, as the keys of a map to nothing.
abbrev pub UintSet : Type 0
UintSet = List (ℕ × Unit {0})

module _ (pc_buffer : List ℕ) (i_size : ℕ) where
  -- The loop over the members, with `ui_ana_no` as the last round left it.
  unfoldable pub parse_members : ℕ → ℕ → ℕ → UintSet → Parsed UintSet
  parse_members zero i key s = record { ok = true; i_offset = i; value = s }
  parse_members (suc n) i key s =
      let a = parse_u32 pc_buffer i_size i key in
      parse_members n a.i_offset a.value (Assoc.insert a.value tt s)

  -- A set. The results of the calls inside are not read.
  unfoldable pub parse_set : Reader UintSet
  parse_set i old = let c = parse_u32 pc_buffer i_size i 0 in parse_members c.value c.i_offset 0 []

-- The overload that also gives the size of the string. When the size cannot be read, the function
-- ends without a value: `none`.
unfoldable pub parse_sized : List ℕ → ℕ → ℕ → List ℕ → ℕ → Option (Parsed (List ℕ × ℕ))
parse_sized pc_buffer i_size i s_output i_output_size =
    let n = parse_u32 pc_buffer i_size i i_output_size in
    let s = parse_bytes pc_buffer i_size n.value n.i_offset s_output in
    if n.ok
    then some (record { ok = s.ok; i_offset = s.i_offset; value = (s.value, n.value) })
    else none

-- The loop over the elements of an array, which ends at the first call that fails. An element past
-- the end of the list is past the end of the array.
unfoldable pub parse_each : {T : Type 0} → Reader T → ℕ → Reader (List T)
parse_each p zero i ts = record { ok = true; i_offset = i; value = ts }
parse_each p (suc n) i [] = record { ok = false; i_offset = i; value = [] }
parse_each p (suc n) i (t ∷ ts) =
    let a = p i t in
    let rest = parse_each p n a.i_offset ts in
    if a.ok
    then record { ok = rest.ok; i_offset = rest.i_offset; value = a.value ∷ rest.value }
    else record { ok = false; i_offset = a.i_offset; value = a.value ∷ ts }

-- An array of `ui_max_num` elements, of which `ui_num` are read.
unfoldable pub parse_array : {T : Type 0} → Reader T → ℕ → ℕ → Reader (List T)
parse_array p ui_max_num ui_num i ts =
    if ltb ui_max_num ui_num
    then record { ok = false; i_offset = i; value = ts }
    else parse_each p ui_num i ts

-- The loop that reads into a std::list: the element of one round stands in the variable of the next.
unfoldable pub parse_more : {T : Type 0} → Reader T → ℕ → ℕ → T → List T → Parsed (List T)
parse_more p zero i t ts = record { ok = true; i_offset = i; value = ts }
parse_more p (suc n) i t ts =
    let a = p i t in
    let rest = parse_more p n a.i_offset a.value (ts ++ (a.value ∷ [])) in
    if a.ok then rest else record { ok = false; i_offset = a.i_offset; value = ts }

-- A list, after the number of its elements, at the end of the list that is there.
unfoldable pub parse_list :
    {T : Type 0} → (List ℕ → ℕ → Reader T) → T → List ℕ → ℕ → Reader (List T)
parse_list p empty pc_buffer i_size i ts =
    let c = parse_u32 pc_buffer i_size i 0 in
    let rest = parse_more (p pc_buffer i_size) c.value c.i_offset empty ts in
    if c.ok then rest else record { ok = false; i_offset = c.i_offset; value = ts }

-- The overloads over a std::vector of less than 2 ^ 31 bytes: an array or a string, and the template
-- at a type of `k` bytes, which leaves the bytes in the order of the buffer.
unfoldable pub vector_bytes : List ℕ → ℕ → Reader (List ℕ)
vector_bytes vc_buffer = parse_bytes vc_buffer (length vc_buffer)

unfoldable pub vector_word : List ℕ → ℕ → Reader ℕ
vector_word vc_buffer k = parse_word vc_buffer (length vc_buffer) k (λ n. n)

-- The rest of a std::vector as a string. The offset stays. Past the end the difference is a number
-- near 2 ^ 64, for which `assign` throws: `none`.
unfoldable pub vector_rest : List ℕ → ℕ → List ℕ → Option (Parsed (List ℕ))
vector_rest vc_buffer i old =
    if ltb (length vc_buffer) i
    then none
    else if length vc_buffer == i
    then some (record { ok = false; i_offset = i; value = old })
    else some (record { ok = true; i_offset = i; value = drop i vc_buffer })

-- The loop over the members of a set: `b_ret &=` makes every call.
unfoldable pub pack_members : UintSet → Writer
pack_members [] buffer = (true, buffer)
pack_members ((k, u) ∷ s) buffer =
    let a = pack_u32 k buffer in let rest = pack_members s a.1 in (a.0 && rest.0, rest.1)

unfoldable pub pack_set : UintSet → Writer
pack_set s buffer =
    let c = pack_u32 (length s % 2 ^ 32) buffer in
    let rest = pack_members s c.1 in (c.0 && rest.0, rest.1)

-- The loop over the elements of a list, which ends at the first call that fails.
unfoldable pub pack_each : {T : Type 0} → (T → Writer) → List T → Writer
pack_each pack [] buffer = (true, buffer)
pack_each pack (t ∷ ts) buffer =
    let a = pack t buffer in let rest = pack_each pack ts a.1 in if a.0 then rest else a

-- A list, after the number of its elements.
unfoldable pub pack_list : {T : Type 0} → (T → Writer) → List T → Writer
pack_list pack ts buffer =
    let c = pack_u32 (length ts % 2 ^ 32) buffer in
    let rest = pack_each pack ts c.1 in if c.0 then rest else c

-- The loop over the first elements of an array, which ends at the first call that fails.
unfoldable pub pack_array : {T : Type 0} → (T → Writer) → List T → ℕ → Writer
pack_array pack ts zero buffer = (true, buffer)
pack_array pack [] (suc n) buffer = (false, buffer)
pack_array pack (t ∷ ts) (suc n) buffer =
    let a = pack t buffer in let rest = pack_array pack ts n a.1 in if a.0 then rest else a
