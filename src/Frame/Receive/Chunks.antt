-- ===== src/Frame/Receive/Chunks.antt =====
-- Messages that arrive in pieces.
use net_lib_wrapper.Prelude.{
  ℕ, zero, suc, ◌+◌, ◌^◌, ◌≤◌, ◌<◌, ◌≡◌, refl, ap, sym, ◌∙◌, inl, inr, false, some, List, [], ◌∷◌,
  ◌++◌, append-nil, append_assoc, ltb, length, take, drop, length-append, arith, lt→ltb, le→ltb,
}
use net_lib_wrapper.Frame.Parse.{Message, parse_data_total_len, word_at, header_size}
use net_lib_wrapper.Frame.Receive.{received, is_magic, on_tcp_recv_data}
use net_lib_wrapper.Frame.Receive.Stream.{IsFrame, IsStart, on_tcp_recv_data-stream}

-- Only the first bytes count.
is_magic-append : (xs ys zs : List ℕ) → 4 ≤ length xs → is_magic (xs ++ ys) ≡ is_magic (xs ++ zs)
unfolding is_magic
is_magic-append [] ys zs le = absurd (omega arith)
is_magic-append (a ∷ []) ys zs le = absurd (omega arith)
is_magic-append (a ∷ b ∷ []) ys zs le = absurd (omega arith)
is_magic-append (a ∷ b ∷ c ∷ []) ys zs le = absurd (omega arith)
is_magic-append (a ∷ b ∷ c ∷ d ∷ xs) ys zs le = refl

take-drop-append :
    (n k : ℕ) (xs ys : List ℕ) → k + n ≤ length xs → take n (drop k (xs ++ ys)) ≡ take n (drop k xs)
take-drop-append zero zero xs ys le = refl
take-drop-append (suc n) zero [] ys le = absurd (omega arith)
take-drop-append (suc n) zero (x ∷ xs) ys le =
    ap (λ (t : List ℕ). x ∷ t) (take-drop-append n zero xs ys (omega arith))
take-drop-append zero (suc k) [] ys le = absurd (omega arith)
take-drop-append (suc n) (suc k) [] ys le = absurd (omega arith)
take-drop-append n (suc k) (x ∷ xs) ys le = take-drop-append n k xs ys (omega arith)

total-append :
    (xs ys zs : List ℕ)
    → 12 ≤ length xs
    → parse_data_total_len (xs ++ ys) ≡ parse_data_total_len (xs ++ zs)
unfolding parse_data_total_len word_at
total-append xs ys zs le =
    rw (take-drop-append 4 8 xs ys (omega arith), take-drop-append 4 8 xs zs (omega arith)) refl

-- A message that is cut anywhere after its length field is waiting for the rest.
pub cut-IsStart :
    (beyond a b : List ℕ) (m : Message)
    → IsFrame (a ++ b) m
    → 12 ≤ length a
    → 0 < length b
    → length (a ++ b) < 2 ^ 31
    → IsStart beyond a
cut-IsStart beyond a b m f le pos small =
    let whole = f.total [] in
    let total : parse_data_total_len (a ++ beyond) ≡ length (a ++ b) =
      total-append a beyond (b ++ []) le
      ∙ ap parse_data_total_len (sym (append_assoc a b []))
      ∙ whole in
    record {
      some_bytes = omega (arith, le);
      magic =
          is_magic-append a beyond (b ++ []) (omega (arith, le))
          ∙ ap is_magic (sym (append_assoc a b []))
          ∙ f.magic [];
      more = omega (arith, total, length-append a b, pos);
      bounded = omega (arith, total, small);
    }

-- The first piece of a message, cut after at least a header's size, is kept as it is.
first_piece :
    (beyond a b : List ℕ) (m : Message) (fuel : ℕ)
    → IsFrame (a ++ b) m
    → header_size ≤ length a
    → 0 < length b
    → length (a ++ b) < 2 ^ 31
    → on_tcp_recv_data beyond (suc fuel) [] a ≡ some (a, [])
first_piece beyond a b m fuel f le pos small =
    on_tcp_recv_data-stream beyond [] a [] a (suc fuel) tt
      (inr (cut-IsStart beyond a b m f (omega (arith, le)) pos small)) refl le
      (omega (arith, small, length-append a b)) (omega arith)

-- A message of less than 2 ^ 31 bytes that comes in two pieces of at least a header's size each is
-- kept after the first and delivered once, with the second, whatever stands in memory after the
-- buffer.
pub on_tcp_recv_data-resumes :
    (beyond a b : List ℕ) (m : Message) (fuel : ℕ)
    → IsFrame (a ++ b) m
    → header_size ≤ length a
    → header_size ≤ length b
    → length (a ++ b) < 2 ^ 31
    → (on_tcp_recv_data beyond (suc (suc fuel)) [] a ≡ some (a, []))
      × (on_tcp_recv_data beyond (suc (suc fuel)) a b ≡ some ([], received m ∷ []))
on_tcp_recv_data-resumes beyond a b m fuel f la lb small = (
  first_piece beyond a b m (suc fuel) f la (omega (arith, lb)) small,
  on_tcp_recv_data-stream beyond a b ((a ++ b, m) ∷ []) [] (suc (suc fuel)) (f, tt) (inl refl)
      (sym (append-nil (a ++ b)) ∙ ap (λ (t : List ℕ). t ++ []) (sym (append-nil (a ++ b)))) lb
      small (omega arith),
)

-- A message of less than 2 ^ 31 bytes that comes in two pieces, the first of at least a header's
-- size and the second shorter, is complete in the buffer after the second, and is not delivered.
pub on_tcp_recv_data-delays :
    (beyond a b : List ℕ) (m : Message) (fuel : ℕ)
    → IsFrame (a ++ b) m
    → header_size ≤ length a
    → 0 < length b
    → length b < header_size
    → length (a ++ b) < 2 ^ 31
    → (on_tcp_recv_data beyond (suc fuel) [] a ≡ some (a, []))
      × (on_tcp_recv_data beyond (suc fuel) a b ≡ some (a ++ b, []))
unfolding on_tcp_recv_data
on_tcp_recv_data-delays beyond a b m fuel f la pos lb small =
    let long : ltb (length (a ++ b)) header_size ≡ false =
      le→ltb (length (a ++ b)) header_size (omega (arith, la, length-append a b)) in
    let short = lt→ltb (length b) header_size lb in
    (first_piece beyond a b m fuel f la pos small, rw (long, short) refl)
