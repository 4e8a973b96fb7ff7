-- ===== src/Wire/Bounds.antt =====
-- No reader moves its offset past the end, whatever the bytes are.
use net_lib_wrapper.Prelude.{
  ℕ, zero, suc, ◌≤◌, List, [], arith, if◌then◌else◌, Bool-cases, inl, inr,
}
use net_lib_wrapper.Prelude.Assoc.{insert}
use net_lib_wrapper.Wire.Reader.{
  Reader, ◌then◌, member, parse_bytes, parse_word, parse_u32, parse_u64, parse_string,
  parse_entries, parse_map,
}

-- From an offset within the size, the offset does not fall and does not pass the end.
abbrev pub Stays : {A : Type 0} → ℕ → Reader A → Type 0
Stays i_size p =
    (i : ℕ) (old : _) → i ≤ i_size → (i ≤ (p i old).i_offset) × ((p i old).i_offset ≤ i_size)

module _ (pc_buffer : List ℕ) (i_size : ℕ) where
  pub then-Stays :
      {S : Type 0} (p q : Reader S) → Stays i_size p → Stays i_size q → Stays i_size (p then q)
  unfolding ◌then◌
  then-Stays p q hp hq i s le =
      let (a, b) = hp i s le in
      let (c, d) = hq (p i s).i_offset (p i s).value b in
      elim (Bool-cases (p i s).ok) [
        | inl good ↦ rw good (omega (arith, a, c), d)
        | inr bad ↦ rw bad (a, b)
      ]

  pub member-Stays :
      {A S : Type 0} (get : S → A) (put : A → S → S) (p : Reader A)
      → Stays i_size p
      → Stays i_size (member get put p)
  unfolding member
  member-Stays get put p hp i s le = hp i (get s) le

  pub parse_bytes-Stays : (n : ℕ) → Stays i_size (parse_bytes pc_buffer i_size n)
  unfolding parse_bytes
  parse_bytes-Stays n i old le = ground arith

  pub parse_word-Stays : (k : ℕ) (swap : ℕ → ℕ) → Stays i_size (parse_word pc_buffer i_size k swap)
  unfolding parse_word
  parse_word-Stays k swap i old le = ground arith

  pub parse_u32-Stays : Stays i_size (parse_u32 pc_buffer i_size)
  unfolding parse_u32
  parse_u32-Stays i old le = parse_word-Stays 4 _ i old le

  pub parse_u64-Stays : Stays i_size (parse_u64 pc_buffer i_size)
  unfolding parse_u64
  parse_u64-Stays i old le = parse_word-Stays 8 _ i old le

  pub parse_string-Stays : Stays i_size (parse_string pc_buffer i_size)
  unfolding parse_string
  parse_string-Stays i old le =
      let (a, b) = parse_u32-Stays i 0 le in
      let n = parse_u32 pc_buffer i_size i 0 in
      let (c, d) = parse_bytes-Stays n.value n.i_offset old b in
      elim (Bool-cases n.ok) [
        | inl good ↦ rw good (omega (arith, a, c), d)
        | inr bad ↦ rw bad (a, b)
      ]

  parse_entries-Stays :
      {V : Type 0} (p : Reader V)
      → Stays i_size p
      → (n i key : ℕ) (v : V) (m : List (ℕ × V)) → i ≤ i_size
      → let r = parse_entries pc_buffer i_size p n i key v m in
        (i ≤ r.i_offset) × (r.i_offset ≤ i_size)
  unfolding parse_entries
  parse_entries-Stays p hp zero i key v m le = (omega arith, le)
  parse_entries-Stays p hp (suc n) i key v m le =
      let a = parse_u32 pc_buffer i_size i key in
      let (a1, a2) = parse_u32-Stays i key le in
      let b = p a.i_offset v in
      let (b1, b2) = hp a.i_offset v a2 in
      let (c1, c2) =
        parse_entries-Stays p hp n b.i_offset a.value b.value (insert a.value b.value m) b2 in
      (omega (arith, a1, b1, c1), c2)

  pub parse_map-Stays :
      {V : Type 0} (p : Reader V) (empty : V)
      → Stays i_size p
      → Stays i_size (parse_map pc_buffer i_size p empty)
  unfolding parse_map
  parse_map-Stays p empty hp i old le =
      let c = parse_u32 pc_buffer i_size i 0 in
      let (a1, a2) = parse_u32-Stays i 0 le in
      let (b1, b2) = parse_entries-Stays p hp c.value c.i_offset 0 empty [] a2 in
      (omega (arith, a1, b1), b2)
