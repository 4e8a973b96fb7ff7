-- ===== src/Wire/RoundTrip.antt =====
-- What the writers append, the readers give back.
use net_lib_wrapper.Prelude.{
  ℕ, ◌+◌, ◌^◌, ◌≤◌, ◌<◌, ◌≡◌, refl, ap, ◌∙◌, true, List, ◌++◌, append_assoc, if◌then◌else◌, length,
  take, drop, arith, sym, drop-drop, take_append_lem, drop_append_lem, length-append, le→leb,
  lt→ltb, take-length,
}
use net_lib_wrapper.Wire.Endian.{host_bytes}
use net_lib_wrapper.Wire.Endian.Reverse.{host_value-host_bytes, length-host_bytes}
use net_lib_wrapper.Wire.Reader.{Parsed, Reader, ◌then◌, member, parse_bytes, parse_word}
use net_lib_wrapper.Wire.Writer.{Writer, ◌also◌, ms_append, pack_bytes}

abbrev pub parsed : {A : Type 0} → ℕ → A → Parsed A
parsed i v = record { ok = true; i_offset = i; value = v }

-- The bytes stand in the buffer at an offset, and end within its size.
pub record Holds (pc_buffer : List ℕ) (i_size i : ℕ) (bytes : List ℕ) : Type 0 where
  pub rest : List ℕ
  pub there : drop i pc_buffer ≡ bytes ++ rest
  pub fits : i + length bytes ≤ i_size

-- A writer appends these bytes.
abbrev pub Writes : Writer → List ℕ → Type 0
Writes w bytes = (buffer : List ℕ) → w buffer ≡ (true, buffer ++ bytes)

-- A reader succeeds on these bytes, moves past them, and leaves `f` of what the variable was.
abbrev pub Reads : {A : Type 0} → (List ℕ → ℕ → Reader A) → List ℕ → (A → A) → Type 0
Reads p bytes f =
    (pc_buffer : List ℕ) (i_size i : ℕ) (old : _)
    → Holds pc_buffer i_size i bytes
    → p pc_buffer i_size i old ≡ record { ok = true; i_offset = i + length bytes; value = f old }

pub Holds-append :
    (pc_buffer : List ℕ) (i_size i : ℕ) (xs ys : List ℕ)
    → Holds pc_buffer i_size i (xs ++ ys)
    → Holds pc_buffer i_size i xs × Holds pc_buffer i_size (i + length xs) ys
Holds-append buf size i xs ys h =
    let sum = length-append xs ys in
    let whole : drop i buf ≡ xs ++ (ys ++ h.rest) = h.there ∙ append_assoc xs ys h.rest in
    (
      record { rest = ys ++ h.rest; there = whole; fits = omega (arith, h.fits, sum) },
      record {
        rest = h.rest;
        there =
            sym (drop-drop i (length xs) buf)
            ∙ ap (drop (length xs)) whole
            ∙ drop_append_lem xs (ys ++ h.rest);
        fits = omega (arith, h.fits, sum);
      },
    )

pub then-Reads :
    {S : Type 0} (p q : List ℕ → ℕ → Reader S) (xs ys : List ℕ) (f g : S → S)
    → Reads p xs f
    → Reads q ys g
    → Reads (λ buf size. p buf size then q buf size) (xs ++ ys) (λ s. g (f s))
unfolding ◌then◌
then-Reads p q xs ys f g hp hq buf size i s h =
    let (hx, hy) = Holds-append buf size i xs ys h in
    rw (hp buf size i s hx, hq buf size (i + length xs) (f s) hy)
      (ap (λ (n : ℕ). parsed n (g (f s))) (omega (arith, length-append xs ys)))

pub member-Reads :
    {A S : Type 0} (get : S → A) (put : A → S → S) (p : List ℕ → ℕ → Reader A) (xs : List ℕ)
    (f : A → A)
    → Reads p xs f
    → Reads (λ buf size. member get put (p buf size)) xs (λ s. put (f (get s)) s)
unfolding member
member-Reads get put p xs f hp buf size i s h = rw (hp buf size i (get s) h) refl

pub also-Writes :
    (p q : Writer) (xs ys : List ℕ) → Writes p xs → Writes q ys → Writes (p also q) (xs ++ ys)
unfolding ◌also◌
also-Writes p q xs ys hp hq buf =
    rw (hp buf, hq (buf ++ xs)) (ap (λ (t : List ℕ). (true, t)) (append_assoc buf xs ys))

-- A member of fixed size.
pub pack_bytes-Writes : (xs : List ℕ) (n : ℕ) → length xs ≡ n → Writes (pack_bytes xs n) xs
unfolding pack_bytes ms_append
pack_bytes-Writes xs n e buf =
    ap (λ (t : List ℕ). (true, buf ++ t)) (take-length n xs (omega arith))

pub parse_bytes-Reads :
    (xs : List ℕ) (n : ℕ)
    → length xs ≡ n
    → n < 2 ^ 31
    → Reads (λ buf size. parse_bytes buf size n) xs (λ _. xs)
unfolding parse_bytes
parse_bytes-Reads xs n e lt buf size i old h =
    let small = lt→ltb n (2 ^ 31) lt in
    let fits = le→leb (i + n) size (omega (arith, h.fits)) in
    let found : take n (drop i buf) ≡ xs =
      ap (take n) h.there
      ∙ ap (λ (k : ℕ). take k (xs ++ h.rest)) (sym e)
      ∙ take_append_lem xs h.rest in
    rw (small, fits, found, e) refl

-- Words.
pub word_lem :
    (k n : ℕ) (swap : ℕ → ℕ)
    → swap n < 256 ^ k
    → swap (swap n) ≡ n
    → Reads (λ buf size. parse_word buf size k swap) (host_bytes k (swap n)) (λ _. n)
unfolding parse_word
word_lem k n swap lt back buf size i old h =
    let e = length-host_bytes k (swap n) in
    let fits = le→leb (i + k) size (omega (arith, h.fits)) in
    let found : take k (drop i buf) ≡ host_bytes k (swap n) =
      ap (take k) h.there
      ∙ ap (λ (j : ℕ). take j (host_bytes k (swap n) ++ h.rest)) (sym e)
      ∙ take_append_lem (host_bytes k (swap n)) h.rest in
    let value = host_value-host_bytes k (swap n) lt in rw (fits, found, value, back, e) refl
