-- ===== src/Wire/ListTrips.antt =====
-- Round trips of lists.
use net_lib_wrapper.Prelude.{
  ℕ, ◌+◌, ◌^◌, ◌%◌, ◌<◌, ◌≡◌, ap, sym, ◌∙◌, true, List, [], ◌∷◌, ◌++◌, append_assoc, append-nil,
  length, arith, length-append, drop, drop_append_lem, All,
}
use net_lib_wrapper.Wire.Reader.{Reader}
use net_lib_wrapper.Wire.Writer.{Writer}
use net_lib_wrapper.Wire.RoundTrip.{parsed, Holds, Writes, Reads, Holds-append}
use net_lib_wrapper.Wire.Containers.{u32_bytes, pack_u32-Writes, parse_u32-Reads}
use net_lib_wrapper.Wire.Lists.{pack_each, pack_list, parse_more, parse_list}

-- What a list writes at the end of a buffer.
pub written_end :
    (bytes buffer rest : List ℕ)
    → Holds ((buffer ++ bytes) ++ rest) (length (buffer ++ bytes)) (length buffer) bytes
written_end bytes buffer rest = record {
  rest = rest;
  there =
      ap (drop (length buffer)) (append_assoc buffer bytes rest)
      ∙ drop_append_lem buffer (bytes ++ rest);
  fits = omega (arith, length-append buffer bytes);
}

module _ {T : Type 0} (P : T → Type 0) (encode : T → List ℕ) where
  -- What stands in the buffer for the elements of a list.
  abbrev each_bytes : List T → List ℕ
  each_bytes [] = []
  each_bytes (t ∷ ts) = encode t ++ each_bytes ts

  abbrev list_bytes : List T → List ℕ
  list_bytes ts = u32_bytes (length ts) ++ each_bytes ts

  pack_each-Writes :
      (pack : T → Writer)
      → ((t : T) → P t → Writes (pack t) (encode t))
      → (ts : List T) → All P ts
      → Writes (pack_each pack ts) (each_bytes ts)
  unfolding pack_each
  pack_each-Writes pack law [] ps buf = ap (λ (b : List ℕ). (true, b)) (sym (append-nil buf))
  pack_each-Writes pack law (t ∷ ts) (p, ps) buf =
      rw (law t p buf, pack_each-Writes pack law ts ps (buf ++ encode t))
        (ap (λ (b : List ℕ). (true, b)) (append_assoc buf (encode t) (each_bytes ts)))

  pub pack_list-Writes :
      (pack : T → Writer)
      → ((t : T) → P t → Writes (pack t) (encode t))
      → (ts : List T) → length ts < 2 ^ 32
      → All P ts
      → Writes (pack_list pack ts) (list_bytes ts)
  unfolding pack_list
  pack_list-Writes pack law ts small ps buf =
      let count : length ts % 2 ^ 32 ≡ length ts = omega (arith, small) in
      rw
        (
          count,
          pack_u32-Writes (length ts) buf,
          pack_each-Writes pack law ts ps (buf ++ u32_bytes (length ts)),
        )
        (ap (λ (b : List ℕ). (true, b)) (append_assoc buf (u32_bytes (length ts)) (each_bytes ts)))

  module _ (parse : List ℕ → ℕ → Reader T)
      (law : (t : T) → P t → Reads parse (encode t) (λ _. t)) where
    parse_more-Reads :
        (buf : List ℕ) (size i : ℕ) (t0 : T) (done ts : List T)
        → All P ts
        → Holds buf size i (each_bytes ts)
        → parse_more (parse buf size) (length ts) i t0 done
          ≡ parsed (i + length (each_bytes ts)) (done ++ ts)
    unfolding parse_more
    parse_more-Reads buf size i t0 done [] ps h =
        let none_more : i + 0 ≡ i = omega arith in
        rw none_more (ap (parsed i) (sym (append-nil done)))
    parse_more-Reads buf size i t0 done (t ∷ ts) (p, ps) h =
        let (ht, hs) = Holds-append buf size i (encode t) (each_bytes ts) h in
        let first = law t p buf size i t0 ht in
        let rest =
          parse_more-Reads buf size (i + length (encode t)) t (done ++ (t ∷ [])) ts ps hs in
        rw (first, rest, append_assoc done (t ∷ []) ts)
          (ap (λ (n : ℕ). parsed n (done ++ (t ∷ ts)))
            (omega (arith, length-append (encode t) (each_bytes ts))))

    pub parse_list-Reads :
        (empty : T) (ts : List T)
        → length ts < 2 ^ 32
        → All P ts
        → Reads (parse_list parse empty) (list_bytes ts) (λ old. old ++ ts)
    unfolding parse_list
    parse_list-Reads empty ts small ps buf size i old h =
        let (hc, he) = Holds-append buf size i (u32_bytes (length ts)) (each_bytes ts) h in
        let first = parse_u32-Reads (length ts) small buf size i 0 hc in
        let rest =
          parse_more-Reads buf size (i + length (u32_bytes (length ts))) empty old ts ps he in
        rw (first, rest)
          (ap (λ (n : ℕ). parsed n (old ++ ts))
            (omega (arith, length-append (u32_bytes (length ts)) (each_bytes ts))))
