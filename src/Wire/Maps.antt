-- ===== src/Wire/Maps.antt =====
-- Round trips of maps.
use net_lib_wrapper.Prelude.{
  ℕ, suc, ◌+◌, ◌^◌, ◌%◌, ◌<◌, ◌≡◌, refl, ap, sym, ◌∙◌, true, List, [], ◌∷◌, ◌++◌, append_assoc,
  append-nil, length, arith, length-append, All, subst,
}
use net_lib_wrapper.Prelude.Assoc.{IsSorted, insert, insert_last}
use net_lib_wrapper.Wire.Reader.{Parsed, Reader, parse_u32, parse_entries, parse_map}
use net_lib_wrapper.Wire.Writer.{Writer, pack_entries, pack_map}
use net_lib_wrapper.Wire.RoundTrip.{parsed, Holds, Writes, Reads, Holds-append}
use net_lib_wrapper.Wire.Containers.{
  u32_bytes, entries_bytes, map_bytes, pack_u32-Writes, parse_u32-Reads,
}

-- A map as std::map keeps it, small enough for its count, with keys and values in range.
pub record IsMap {V : Type 0} (P : V → Type 0) (m : List (ℕ × V)) : Type 0 where
  pub sorted : IsSorted m
  pub small : length m < 2 ^ 32
  pub keys : All (λ (e : ℕ × V). e.0 < 2 ^ 32) m
  pub values : All (λ (e : ℕ × V). P e.1) m

module _ {V : Type 0} (P : V → Type 0) (encode : V → List ℕ) where
  pack_entries-Writes :
      (pack : V → Writer)
      → ((v : V) → P v → Writes (pack v) (encode v))
      → (m : List (ℕ × V)) → All (λ (e : ℕ × V). P e.1) m
      → Writes (pack_entries pack m) (entries_bytes encode m)
  unfolding pack_entries entries_bytes
  pack_entries-Writes pack law [] ps buf = ap (λ (t : List ℕ). (true, t)) (sym (append-nil buf))
  pack_entries-Writes pack law ((k, v) ∷ m) (p, ps) buf =
      let first = pack_u32-Writes k buf in
      let second = law v p (buf ++ u32_bytes k) in
      let rest = pack_entries-Writes pack law m ps ((buf ++ u32_bytes k) ++ encode v) in
      rw (first, second, rest)
        (ap (λ (t : List ℕ). (true, t))
          (append_assoc (buf ++ u32_bytes k) (encode v) (entries_bytes encode m)
            ∙ append_assoc buf (u32_bytes k) (encode v ++ entries_bytes encode m)))

  pub pack_map-Writes :
      (pack : V → Writer)
      → ((v : V) → P v → Writes (pack v) (encode v))
      → (m : List (ℕ × V)) → IsMap P m
      → Writes (pack_map pack m) (map_bytes encode m)
  unfolding pack_map map_bytes
  pack_map-Writes pack law m ok buf =
      let count : length m % 2 ^ 32 ≡ length m = omega (arith, ok.small) in
      let rest = pack_entries-Writes pack law m ok.values (buf ++ u32_bytes (length m)) in
      rw (count, pack_u32-Writes (length m) buf, rest)
        (ap (λ (t : List ℕ). (true, t))
          (append_assoc buf (u32_bytes (length m)) (entries_bytes encode m)))

  module _ (parse : List ℕ → ℕ → Reader V)
      (law : (v : V) → P v → Reads parse (encode v) (λ _. v)) where
    entries_step :
        (buf : List ℕ) (size n i key : ℕ) (v0 : V) (m : List (ℕ × V)) (a : Parsed ℕ) (b : Parsed V)
        → parse_u32 buf size i key ≡ a
        → parse buf size a.i_offset v0 ≡ b
        → parse_entries buf size (parse buf size) (suc n) i key v0 m
          ≡ parse_entries buf size
              (parse buf size)
              n
              b.i_offset
              a.value
              b.value
              (insert a.value b.value m)
    unfolding parse_entries
    entries_step buf size n i key v0 m a b ea eb = rw (← eb, ← ea) refl

    -- The entries that are read join those that were read before.
    parse_entries-Reads :
        (buf : List ℕ) (size i key : ℕ) (v0 : V) (done m : List (ℕ × V))
        → IsSorted (done ++ m)
        → All (λ (e : ℕ × V). e.0 < 2 ^ 32) m
        → All (λ (e : ℕ × V). P e.1) m
        → Holds buf size i (entries_bytes encode m)
        → parse_entries buf size (parse buf size) (length m) i key v0 done
          ≡ parsed (i + length (entries_bytes encode m)) (done ++ m)
    unfolding parse_entries entries_bytes
    parse_entries-Reads buf size i key v0 done [] s ks ps h =
        let none_more : i + 0 ≡ i = omega arith in
        rw none_more (ap (parsed i) (sym (append-nil done)))
    parse_entries-Reads buf size i key v0 done ((k, v) ∷ m) s (kl, ks) (p, ps) h =
        let tail = encode v ++ entries_bytes encode m in
        let (hk, hr) = Holds-append buf size i (u32_bytes k) tail h in
        let i1 = i + length (u32_bytes k) in
        let (hv, hm) = Holds-append buf size i1 (encode v) (entries_bytes encode m) hr in
        let i2 = i1 + length (encode v) in
        let joined : insert k v done ≡ done ++ ((k, v) ∷ []) = insert_last k v done m s in
        let again : (done ++ ((k, v) ∷ [])) ++ m ≡ done ++ ((k, v) ∷ m) =
          append_assoc done ((k, v) ∷ []) m in
        let rest =
          parse_entries-Reads buf size i2 k v (done ++ ((k, v) ∷ [])) m
            (subst IsSorted (sym again) s) ks ps hm in
        entries_step buf size (length m) i key v0 done (parsed i1 k) (parsed i2 v)
          (parse_u32-Reads k kl buf size i key hk) (law v p buf size i1 v0 hv)
        ∙ rw (joined, rest, again)
            (ap (λ (n : ℕ). parsed n (done ++ ((k, v) ∷ m)))
              (omega (
                arith,
                length-append (u32_bytes k) tail,
                length-append (encode v) (entries_bytes encode m),
              )))

    pub parse_map-Reads :
        (empty : V) (m : List (ℕ × V))
        → IsMap P m
        → Reads
            (λ buf size. parse_map buf size (parse buf size) empty)
            (map_bytes encode m)
            (λ _. m)
    unfolding parse_map map_bytes
    parse_map-Reads empty m ok buf size i old h =
        let (hc, he) = Holds-append buf size i (u32_bytes (length m)) (entries_bytes encode m) h in
        let first = parse_u32-Reads (length m) ok.small buf size i 0 hc in
        let rest =
          parse_entries-Reads buf size (i + length (u32_bytes (length m))) 0 empty [] m ok.sorted
            ok.keys ok.values he in
        rw (first, rest)
          (ap (λ (n : ℕ). parsed n m)
            (omega (arith, length-append (u32_bytes (length m)) (entries_bytes encode m))))
