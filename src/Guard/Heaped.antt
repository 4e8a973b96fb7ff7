-- ===== src/Guard/Heaped.antt =====
-- A heap whose counts are given by a function, and what the operations of `CRefCountPtr` do to it.
use net_lib_wrapper.Prelude.{
  ℕ, ◌+◌, ◌≡◌, ◌≢◌, refl, ◌∙◌, ◌⊎◌, inl, inr, none, some, ◌==◌, ltb, Returns, Bool-cases,
  Option-cases, if◌then◌else◌, arith,
}
use net_lib_wrapper.Prelude.Assoc.{
  find, insert, IsSorted, find-insert, find-erase, insert-IsSorted, erase-IsSorted,
}
use net_lib_wrapper.Guard.{Ptr, Heap, null, construct, add_ref, delete, drop_ref, release}
use net_lib_wrapper.Guard.Counts.{is_at, points, IsWhole, times}

-- `f` gives the number of holders: a count is allocated just where there are some, and then it is
-- their number; of the objects numbered so far, those without holders have been deleted, once.
pub record Heaped (f : ℕ → ℕ) (h : Heap) : Type 0 where
  pub sorted : IsSorted h.cells
  pub counted : (k : ℕ) → find k h.cells ≡ (if f k == 0 then none else some (f k))
  pub freed :
      (k : ℕ) → times k h.deleted + (if f k == 0 then 0 else 1) ≡ (if ltb k h.next then 1 else 0)

pub construct-Heaped :
    (f g : ℕ → ℕ) (h : Heap)
    → ((k : ℕ) → g k ≡ is_at k (some h.next) + f k)
    → Heaped f h
    → Heaped g (construct (some h.next) h).1
unfolding construct
construct-Heaped f g h e v = record {
  sorted = insert-IsSorted h.next 1 h.cells v.sorted;
  counted =
      λ k. rw (find-insert h.next k 1 h.cells, e k) (ground (arith, v.counted k, v.freed h.next));
  freed = λ k. rw (e k) (ground (arith, v.freed k, v.freed h.next));
}

add_ref_found :
    (r c : ℕ) (h : Heap)
    → find r h.cells ≡ some c
    → add_ref (some r) h ≡ some (record h { cells = insert r (c + 1) h.cells })
unfolding add_ref
add_ref_found r c h e = ground arith

pub add_ref-Heaped :
    (f g : ℕ → ℕ) (r : ℕ) (h : Heap)
    → ((k : ℕ) → g k ≡ is_at k (some r) + f k)
    → f r ≢ 0
    → Heaped f h
    → Returns (Heaped g) (add_ref (some r) h)
add_ref-Heaped f g r h e held v =
    rw (add_ref_found r (f r) h (ground (arith, v.counted r))) (record {
      sorted = insert-IsSorted r (f r + 1) h.cells v.sorted;
      counted = λ k. rw (find-insert r k (f r + 1) h.cells, e k) (ground (arith, v.counted k));
      freed = λ k. rw (e k) (ground (arith, v.freed k));
    })

-- What `Release` leaves of a pointer: the pointer, or NULL.
abbrev pub Left : Ptr → Ptr → Type 0
Left p p' = (p' ≡ p) ⊎ (p' ≡ null)

drop_ref_many :
    (c d r : ℕ) (p : Ptr) (h : Heap)
    → c ≡ 1 + d
    → d ≢ 0
    → drop_ref c r p h ≡ (p, record h { cells = insert r d h.cells })
unfolding drop_ref
drop_ref_many c d r p h e n = ground arith

drop_ref-Heaped :
    (f g : ℕ → ℕ) (r : ℕ) (p : Ptr) (h : Heap)
    → p.m_p_obj ≡ some r
    → ((k : ℕ) → f k ≡ is_at k (some r) + g k)
    → Heaped f h
    → Left p (drop_ref (f r) r p h).0 × Heaped g (drop_ref (f r) r p h).1
unfolding drop_ref delete
drop_ref-Heaped f g r p h o e v = elim (Bool-cases (g r == 0)) [
  | inl z ↦
      let one : f r ≡ 1 = ground (arith, e r) in
      rw (one, o)
        (
          inr refl,
          record {
            sorted = erase-IsSorted r h.cells v.sorted;
            counted = λ k. rw (find-erase r k h.cells v.sorted) (ground (arith, v.counted k, e k));
            freed = λ k. ground (arith, v.freed k, e k);
          },
        )
  | inr z ↦ rw (drop_ref_many (f r) (g r) r p h (ground (arith, e r)) (ground arith)) (
    inl refl,
    record {
      sorted = insert-IsSorted r (g r) h.cells v.sorted;
      counted = λ k. rw (find-insert r k (g r) h.cells) (ground (arith, v.counted k, e k));
      freed = λ k. ground (arith, v.freed k, e k);
    },
  )
]

release_found :
    (r c : ℕ) (p : Ptr) (h : Heap)
    → p.m_p_ref ≡ some r
    → find r h.cells ≡ some c
    → release p h ≡ some (drop_ref c r p h)
unfolding release
release_found r c p h q e = ground arith

release_null : (p : Ptr) (h : Heap) → p.m_p_ref ≡ none → release p h ≡ some (p, h)
unfolding release
release_null p h q = ground arith

pub Heaped-ext : (f g : ℕ → ℕ) (h : Heap) → ((k : ℕ) → f k ≡ g k) → Heaped f h → Heaped g h
Heaped-ext f g h e v = record {
  sorted = v.sorted;
  counted = λ k. ground (arith, v.counted k, e k);
  freed = λ k. ground (arith, v.freed k, e k);
}

-- `Release` of a pointer that is counted reads no freed memory and takes its share off the count.
pub release-Heaped :
    (f g : ℕ → ℕ) (p : Ptr) (h : Heap)
    → IsWhole p
    → ((k : ℕ) → f k ≡ points k p + g k)
    → Heaped f h
    → Returns (λ r. Left p r.0 × Heaped g r.1) (release p h)
release-Heaped f g p h w e v = elim (Option-cases p.m_p_ref) [
  | inl q ↦
      rw (release_null p h q)
        (inl refl, Heaped-ext f g h (λ k. let at = rw q at (e k) in omega (arith, at)) v)
  | inr (r, q) ↦
      let at : (k : ℕ) → f k ≡ is_at k (some r) + g k = λ k. rw q at (e k) in
      rw (release_found r (f r) p h q (ground (arith, v.counted r, at r)))
        (drop_ref-Heaped f g r p h (w ∙ q) at v)
]
