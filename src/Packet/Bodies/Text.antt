-- ===== src/Packet/Bodies/Text.antt =====
-- `s = s.c_str()`, which the parse_req of a body does to its texts once every member is read.
use net_lib_wrapper.Prelude.{
  ℕ, zero, suc, ◌<◌, ◌≡◌, refl, true, List, [], ◌∷◌, arith, if◌then◌else◌, All,
}
use net_lib_wrapper.Wire.Reader.{Reader}
use net_lib_wrapper.Wire.RoundTrip.{Reads}

-- The string that starts at the first byte of `s` and ends before its first zero byte.
unfoldable pub c_str : List ℕ → List ℕ
c_str [] = []
c_str (zero ∷ s) = []
c_str (suc b ∷ s) = suc b ∷ c_str s

-- `if( b_ret ){ ... } return b_ret;`
unfoldable pub settle : {S : Type 0} → (S → S) → Reader S → Reader S
settle f p i s =
    let a = p i s in
    record { ok = a.ok; i_offset = a.i_offset; value = if a.ok then f a.value else a.value }

-- A text has no zero byte.
abbrev pub IsText : List ℕ → Type 0
IsText = All (λ b. 0 < b)

pub c_str-IsText : (s : List ℕ) → IsText (c_str s)
unfolding c_str
c_str-IsText [] = tt
c_str-IsText (zero ∷ s) = tt
c_str-IsText (suc b ∷ s) = (omega arith, c_str-IsText s)

-- A text stays as it is.
pub IsText-c_str : (s : List ℕ) → IsText s → c_str s ≡ s
unfolding c_str
IsText-c_str [] t = refl
IsText-c_str (zero ∷ s) (p, t) = absurd (omega (arith, p))
IsText-c_str (suc b ∷ s) (p, t) = rw (IsText-c_str s t) refl

-- What holds of every settled structure holds of what a call that succeeds leaves.
pub settle-holds :
    {S : Type 0} (P : S → Type 0) (f : S → S) (p : Reader S)
    → ((s : S) → P (f s))
    → (i : ℕ) (s : S) → (settle f p i s).ok ≡ true
    → P (settle f p i s).value
unfolding settle
settle-holds P f p all i s e = rw e (all (p i s).value)

pub settle-Reads :
    {S : Type 0} (f : S → S) (p : List ℕ → ℕ → Reader S) (bytes : List ℕ) (g : S → S)
    → Reads p bytes g
    → Reads (λ buf size. settle f (p buf size)) bytes (λ s. f (g s))
unfolding settle
settle-Reads f p bytes g hp buf size i s h = rw (hp buf size i s h) refl
