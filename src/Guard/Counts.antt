-- ===== src/Guard/Counts.antt =====
-- How many variables hold a count, and what writing a variable does to that number.
use net_lib_wrapper.Prelude.{
  ℕ, ◌+◌, ◌≡◌, refl, Option, none, some, List, [], ◌∷◌, ◌==◌, if◌then◌else◌, arith,
}
use net_lib_wrapper.Prelude.Assoc.{find, insert, erase, modify}
use net_lib_wrapper.Guard.{Ptr}

abbrev pub is_at : ℕ → Option ℕ → ℕ
is_at k none = 0
is_at k (some r) = if r == k then 1 else 0

abbrev pub points : ℕ → Ptr → ℕ
points k p = is_at k p.m_p_ref

abbrev pub refs : ℕ → List (ℕ × Ptr) → ℕ
refs k [] = 0
refs k ((i, p) ∷ m) = points k p + refs k m

pub refs-insert :
    (k i : ℕ) (p : Ptr) (m : List (ℕ × Ptr))
    → find i m ≡ none
    → refs k (insert i p m) ≡ points k p + refs k m
unfolding find insert
refs-insert k i p [] e = refl
refs-insert k i p ((j, q) ∷ m) e = ground (arith, refs-insert k i p m)

pub refs-erase :
    (k i : ℕ) (p : Ptr) (m : List (ℕ × Ptr))
    → find i m ≡ some p
    → refs k m ≡ points k p + refs k (erase i m)
unfolding find erase
refs-erase k i p [] e = absurd (ground arith)
refs-erase k i p ((j, q) ∷ m) e = ground (arith, refs-erase k i p m)

pub refs-modify :
    (k i : ℕ) (p p' : Ptr) (m : List (ℕ × Ptr))
    → find i m ≡ some p
    → refs k (modify i (λ _. p') m) + points k p ≡ refs k m + points k p'
unfolding find modify
refs-modify k i p p' [] e = absurd (ground arith)
refs-modify k i p p' ((j, q) ∷ m) e = ground (arith, refs-modify k i p p' m)

-- A pointer whose object has the number of its count.
abbrev pub IsWhole : Ptr → Type 0
IsWhole p = p.m_p_obj ≡ p.m_p_ref

abbrev pub AllWhole : List (ℕ × Ptr) → Type 0
AllWhole [] = Unit {0}
AllWhole ((i, p) ∷ m) = IsWhole p × AllWhole m

pub AllWhole-find :
    (i : ℕ) (p : Ptr) (m : List (ℕ × Ptr)) → AllWhole m → find i m ≡ some p → IsWhole p
unfolding find
AllWhole-find i p [] a e = absurd (ground arith)
AllWhole-find i p ((j, q) ∷ m) a e = ground (arith, AllWhole-find i p m a.1)

pub insert-AllWhole :
    (i : ℕ) (p : Ptr) (m : List (ℕ × Ptr)) → IsWhole p → AllWhole m → AllWhole (insert i p m)
unfolding insert
insert-AllWhole i p [] h a = (h, tt)
insert-AllWhole i p ((j, q) ∷ m) h a = ground (arith, insert-AllWhole i p m h a.1)

pub erase-AllWhole : (i : ℕ) (m : List (ℕ × Ptr)) → AllWhole m → AllWhole (erase i m)
unfolding erase
erase-AllWhole i [] a = tt
erase-AllWhole i ((j, q) ∷ m) a = ground (arith, erase-AllWhole i m a.1)

pub modify-AllWhole :
    (i : ℕ) (p : Ptr) (m : List (ℕ × Ptr)) → IsWhole p → AllWhole m → AllWhole (modify i (λ _. p) m)
unfolding modify
modify-AllWhole i p [] h a = tt
modify-AllWhole i p ((j, q) ∷ m) h a = ground (arith, modify-AllWhole i p m h a.1)

abbrev pub times : ℕ → List ℕ → ℕ
times k [] = 0
times k (o ∷ os) = (if o == k then 1 else 0) + times k os
