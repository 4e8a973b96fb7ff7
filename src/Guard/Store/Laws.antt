-- ===== src/Guard/Store/Laws.antt =====
-- Counted pointers keep their counts, and delete an object with its last pointer.
use net_lib_wrapper.Prelude.{
  ℕ, ◌+◌, ◌<◌, ◌≡◌, ◌≢◌, refl, sym, ◌∙◌, subst, inl, inr, Option, none, some, List, ◌==◌, Returns,
  Option-cases, if◌then◌else◌, arith,
}
use mathlib.Core.Option
use net_lib_wrapper.Prelude.Assoc.{
  find, insert, erase, modify, IsSorted, find-erase, find-modify, insert-IsSorted, erase-IsSorted,
  modify-IsSorted,
}
use net_lib_wrapper.Guard.{Ptr, Heap, construct, add_ref, copy, release, take_over}
use net_lib_wrapper.Guard.Counts.{
  points, refs, refs-insert, refs-erase, refs-modify, IsWhole, AllWhole, AllWhole-find,
  insert-AllWhole, erase-AllWhole, modify-AllWhole, times,
}
use net_lib_wrapper.Guard.Heaped.{
  Heaped, Heaped-ext, construct-Heaped, add_ref-Heaped, Left, release-Heaped,
}
use net_lib_wrapper.Guard.Store.{
  Store, Op, make, destroy, copied, assigned, with_var, declared, written, dropped, after, apply,
  start,
}

-- Each count is the number of the variables that hold it.
pub record Counted (s : Store) : Type 0 where
  pub heap : Heaped (λ k. refs k s.vars) s.heap
  pub whole : AllWhole s.vars
  pub sorted : IsSorted s.vars

-- The variables exist, or are new where they are declared. An assignment is between two variables,
-- and the pointer that is assigned is not NULL.
abbrev pub Allowed : Op → Store → Type 0
Allowed (make i) s = find i s.vars ≡ none
Allowed (destroy i) s = (p : Ptr) × (find i s.vars ≡ some p)
Allowed (copied i j) s = (find i s.vars ≡ none) × ((q : Ptr) × (find j s.vars ≡ some q))
Allowed (assigned i j) s =
    (i ≢ j)
    × ((p : Ptr) × (q : Ptr) × (o : ℕ) × (find i s.vars ≡ some p)
        × (find j s.vars ≡ some q)
        × (q.m_p_obj ≡ some o))

after-Returns {ℓ} :
    {A : Type ℓ} (P : A → Type 0) (Q : Store → Type 0) (o : Option A) (f : A → Option Store)
    → Returns P o
    → ((a : A) → P a → Returns Q (f a))
    → Returns Q (after o f)
after-Returns P Q none f r k = absurd r
after-Returns P Q (some a) f r k = k a r

map-Returns {ℓ κ} :
    {A : Type ℓ} {B : Type κ} (P : A → Type 0) (Q : B → Type 0) (o : Option A) (f : A → B)
    → Returns P o
    → ((a : A) → P a → Q (f a))
    → Returns Q (Option.map f o)
map-Returns P Q none f r k = absurd r
map-Returns P Q (some a) f r k = k a r

copy_null : (q : Ptr) (h : Heap) → q.m_p_ref ≡ none → copy q h ≡ some (q, h)
unfolding copy
copy_null q h e = ground arith

copy_found :
    (q : Ptr) (r : ℕ) (h : Heap)
    → q.m_p_ref ≡ some r
    → copy q h ≡ Option.map (λ h'. (q, h')) (add_ref (some r) h)
unfolding copy
copy_found q r h e = ground arith

take_over_found :
    (p q : Ptr) (o : ℕ) (h : Heap)
    → q.m_p_obj ≡ some o
    → q.m_p_ref ≡ some o
    → take_over p q h ≡ Option.map (λ h'. (q, h')) (add_ref (some o) h)
unfolding take_over
take_over_found p q o h e r = ground arith

make-Counted :
    (i : ℕ) (s : Store)
    → find i s.vars ≡ none
    → Counted s
    → Counted (declared i s (construct (some s.heap.next) s.heap))
unfolding construct
make-Counted i s e v =
    let p : Ptr = record { m_p_obj = some s.heap.next; m_p_ref = some s.heap.next } in
    record {
      heap =
          construct-Heaped (λ k. refs k s.vars) (λ k. refs k (insert i p s.vars)) s.heap
            (λ k. refs-insert k i p s.vars e) v.heap;
      whole = insert-AllWhole i p s.vars refl v.whole;
      sorted = insert-IsSorted i p s.vars v.sorted;
    }

destroy-Counted :
    (i : ℕ) (p : Ptr) (s : Store)
    → find i s.vars ≡ some p
    → Counted s
    → Returns Counted (after (release p s.heap) (λ r. some (dropped i s r)))
destroy-Counted i p s e v =
    after-Returns (λ r. Left p r.0 × Heaped (λ k. refs k (erase i s.vars)) r.1) Counted
      (release p s.heap) (λ r. some (dropped i s r))
      (release-Heaped (λ k. refs k s.vars) (λ k. refs k (erase i s.vars)) p s.heap
        (AllWhole-find i p s.vars v.whole e) (λ k. refs-erase k i p s.vars e) v.heap)
      (λ r h. record {
        heap = h.1;
        whole = erase-AllWhole i s.vars v.whole;
        sorted = erase-IsSorted i s.vars v.sorted;
      })

refs-find :
    (i r : ℕ) (p : Ptr) (s : Store)
    → find i s.vars ≡ some p
    → p.m_p_ref ≡ some r
    → refs r s.vars ≢ 0
refs-find i r p s e q =
    let at = refs-erase r i p s.vars e in λ z. let at' = rw q at at in ground (arith, at')

-- Another holder of a count that is held.
copy-Heaped :
    (f g : ℕ → ℕ) (q : Ptr) (h : Heap)
    → ((r : ℕ) → q.m_p_ref ≡ some r → f r ≢ 0)
    → ((k : ℕ) → g k ≡ points k q + f k)
    → Heaped f h
    → Returns (λ r. (r.0 ≡ q) × Heaped g r.1) (copy q h)
copy-Heaped f g q h held e v = elim (Option-cases q.m_p_ref) [
  | inl n ↦
      rw (copy_null q h n)
        (refl, Heaped-ext f g h (λ k. let at = rw n at (e k) in omega (arith, at)) v)
  | inr (r, n) ↦ rw (copy_found q r h n) (
      map-Returns (Heaped g) (λ r. (r.0 ≡ q) × Heaped g r.1) (add_ref (some r) h) (λ h'. (q, h'))
        (add_ref-Heaped f g r h (λ k. rw n at (e k)) (held r n) v) (λ h' v'. (refl, v')))
]

take_over-Heaped :
    (f g : ℕ → ℕ) (p q : Ptr) (o : ℕ) (h : Heap)
    → q.m_p_obj ≡ some o
    → q.m_p_ref ≡ some o
    → f o ≢ 0
    → ((k : ℕ) → g k ≡ points k q + f k)
    → Heaped f h
    → Returns (λ r. (r.0 ≡ q) × Heaped g r.1) (take_over p q h)
take_over-Heaped f g p q o h ob re held e v = rw (take_over_found p q o h ob re) (
    map-Returns (Heaped g) (λ r. (r.0 ≡ q) × Heaped g r.1) (add_ref (some o) h) (λ h'. (q, h'))
      (add_ref-Heaped f g o h (λ k. rw re at (e k)) held v) (λ h' v'. (refl, v')))

copied-Counted :
    (i j : ℕ) (q : Ptr) (s : Store)
    → find i s.vars ≡ none
    → find j s.vars ≡ some q
    → Counted s
    → Returns Counted (after (copy q s.heap) (λ r. some (declared i s r)))
copied-Counted i j q s e found v =
    after-Returns (λ r. (r.0 ≡ q) × Heaped (λ k. refs k (insert i q s.vars)) r.1) Counted
      (copy q s.heap) (λ r. some (declared i s r))
      (copy-Heaped (λ k. refs k s.vars) (λ k. refs k (insert i q s.vars)) q s.heap
        (λ r n. refs-find j r q s found n) (λ k. refs-insert k i q s.vars e) v.heap)
      (λ r h. rw (h.0) (record {
        heap = h.1;
        whole = insert-AllWhole i q s.vars (AllWhole-find j q s.vars v.whole found) v.whole;
        sorted = insert-IsSorted i q s.vars v.sorted;
      }))

-- The variables after an assignment: what `Release` left is written, then the pointer read.
abbrev twice : ℕ → Ptr → Ptr → List (ℕ × Ptr) → List (ℕ × Ptr)
twice i left q m = modify i (λ _. q) (modify i (λ _. left) m)

refs-twice :
    (k i : ℕ) (p left q : Ptr) (m : List (ℕ × Ptr))
    → find i m ≡ some p
    → refs k (twice i left q m) ≡ points k q + refs k (erase i m)
refs-twice k i p left q m e =
    let now : find i (modify i (λ _. left) m) ≡ some left =
      find-modify i i (λ _. left) m ∙ ground (arith, e) in
    omega (
      arith,
      refs-modify k i p left m e,
      refs-modify k i left q (modify i (λ _. left) m) now,
      refs-erase k i p m e,
    )

module _ (i j : ℕ) (p q : Ptr) (o : ℕ) (s : Store) where
  -- The rest of an assignment, once `Release` has left `r`.
  abbrev taken_over : Ptr × Heap → Option Store
  taken_over r = after (take_over r.0 q r.1) (λ r'. some (written i (written i s r) r'))

  taken_over-Counted :
      (r : Ptr × Heap)
      → i ≢ j
      → find i s.vars ≡ some p
      → find j s.vars ≡ some q
      → q.m_p_obj ≡ some o
      → Counted s
      → IsWhole r.0
      → Heaped (λ k. refs k (erase i s.vars)) r.1
      → Returns Counted (taken_over r)
  taken_over-Counted r d e found ob v w h =
      let re = sym (AllWhole-find j q s.vars v.whole found) ∙ ob in
      let left = record s { vars = erase i s.vars } in
      let kept : find j (erase i s.vars) ≡ some q =
        find-erase i j s.vars v.sorted ∙ ground (arith, found, d) in
      after-Returns (λ r'. (r'.0 ≡ q) × Heaped (λ k. refs k (twice i r.0 q s.vars)) r'.1) Counted
        (take_over r.0 q r.1) (λ r'. some (written i (written i s r) r'))
        (take_over-Heaped (λ k. refs k (erase i s.vars)) (λ k. refs k (twice i r.0 q s.vars)) r.0 q
          o r.1 ob re (refs-find j o q left kept re) (λ k. refs-twice k i p r.0 q s.vars e) h)
        (λ r' h'. rw (h'.0) (record {
          heap = h'.1;
          whole =
              modify-AllWhole i q (modify i (λ _. r.0) s.vars)
                (AllWhole-find j q s.vars v.whole found) (modify-AllWhole i r.0 s.vars w v.whole);
          sorted =
              modify-IsSorted i (λ _. q) (modify i (λ _. r.0) s.vars)
                (modify-IsSorted i (λ _. r.0) s.vars v.sorted);
        }))

Left-IsWhole : (p p' : Ptr) → IsWhole p → Left p p' → IsWhole p'
Left-IsWhole p p' w (inl e) = rw (e) w
Left-IsWhole p p' w (inr e) = rw (e) refl

with_var_found :
    (i : ℕ) (s : Store) (p : Ptr) (next : Ptr → Option Store)
    → find i s.vars ≡ some p
    → with_var i s next ≡ next p
with_var_found i s p next e = ground arith

-- Making a pointer to a new object, copying and destroying one, and assigning to a variable a pointer
-- that another variable holds and that is not NULL, reads no freed memory, and keeps each count equal
-- to the number of the variables that hold it; an object has been deleted, once, exactly if no
-- variable holds its count any more. Assignment of a variable to itself or of NULL is left out.
pub apply-Counted : (op : Op) (s : Store) → Allowed op s → Counted s → Returns Counted (apply op s)
unfolding apply
apply-Counted (make i) s e v = make-Counted i s e v
apply-Counted (destroy i) s (p, e) v =
    rw (with_var_found i s p (λ p. after (release p s.heap) (λ r. some (dropped i s r))) e)
      (destroy-Counted i p s e v)
apply-Counted (copied i j) s (e, (q, found)) v =
    rw (with_var_found j s q (λ q. after (copy q s.heap) (λ r. some (declared i s r))) found)
      (copied-Counted i j q s e found v)
apply-Counted (assigned i j) s (d, (p, q, o, e, found, ob)) v = rw (with_var_found i s p _ e) (
    after-Returns (λ r. Left p r.0 × Heaped (λ k. refs k (erase i s.vars)) r.1) Counted
      (release p s.heap) _
      (release-Heaped (λ k. refs k s.vars) (λ k. refs k (erase i s.vars)) p s.heap
        (AllWhole-find i p s.vars v.whole e) (λ k. refs-erase k i p s.vars e) v.heap)
      (λ r h.
        let w = Left-IsWhole p r.0 (AllWhole-find i p s.vars v.whole e) h.0 in
        rw
          (with_var_found j (written i s r) q _
            (find-modify i j (λ _. r.0) s.vars ∙ ground (arith, found, d)))
          (taken_over-Counted i j p q o s r d e found ob v w h.1)))

-- The stores that a program gets to, one allowed operation after another.
pub data Reach : Store → Type 0 where
  begun : Reach start
  later : {s t : Store} (op : Op) → Reach s → Allowed op s → apply op s ≡ some t → Reach t

start-Counted : Counted start
unfolding find
start-Counted = record {
  heap = record { sorted = tt; counted = λ k. refl; freed = λ k. ground arith };
  whole = tt;
  sorted = tt;
}

Returns-some {ℓ} :
    {A : Type ℓ} (P : A → Type 0) (o : Option A) (a : A) → Returns P o → o ≡ some a → P a
Returns-some P none a r e = absurd r
Returns-some P (some b) a r e = subst (Returns P) e r

pub Reach-Counted : {s : Store} → Reach s → Counted s
Reach-Counted begun = start-Counted
Reach-Counted (later {s} {t} op r a e) =
    Returns-some Counted (apply op s) t (apply-Counted op s a (Reach-Counted r)) e

-- In every store that a program gets to, the objects deleted are those that no variable points to,
-- and each of them was deleted once.
pub Reach-deleted :
    {s : Store} (k : ℕ)
    → Reach s
    → k < s.heap.next
    → times k s.heap.deleted ≡ (if refs k s.vars == 0 then 1 else 0)
Reach-deleted k r h = let v = Reach-Counted r in ground (arith, v.heap.freed k)
