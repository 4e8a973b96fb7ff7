-- ===== src/Guard.antt =====
-- include/Guard.h: `CRefCountPtr`, the counted pointer that holds the links.
pub mod Store
pub mod Counts
pub mod Heaped
use net_lib_wrapper.Prelude.{
  ℕ, ◌+◌, ◌-◌, Bool, false, ◌&&◌, Option, none, some, List, [], ◌∷◌, ◌==◌, if◌then◌else◌,
}
use net_lib_wrapper.Prelude.Assoc

-- `m_p_obj` and `m_p_ref`, addresses or NULL.
pub record Ptr : Type 0 where
  pub m_p_obj : Option ℕ
  pub m_p_ref : Option ℕ

-- The counts that are allocated, the objects deleted, newest first, and the next free address. A
-- `long` has 64 bits, and no program makes so many pointers that the count wraps.
pub record Heap : Type 0 where
  pub cells : List (ℕ × ℕ)
  pub deleted : List ℕ
  pub next : ℕ

abbrev same_address : Option ℕ → Option ℕ → Bool
same_address (some a) (some b) = a == b
same_address _ _ = false

-- `operator==`
unfoldable pub equal : Ptr → Ptr → Bool
equal p rcf = same_address p.m_p_obj rcf.m_p_obj && same_address p.m_p_ref rcf.m_p_ref

abbrev pub null : Ptr
null = record { m_p_obj = none; m_p_ref = none }

-- `CRefCountPtr( T* p )`
unfoldable pub construct : Option ℕ → Heap → Ptr × Heap
construct p h = (
  record { m_p_obj = p; m_p_ref = some h.next },
  record h { cells = Assoc.insert h.next 1 h.cells; next = h.next + 1 },
)

-- `__sync_fetch_and_add( m_p_ref, 1 )`: `none` is an access to a count that is not allocated.
unfoldable pub add_ref : Option ℕ → Heap → Option Heap
add_ref none h = none
add_ref (some r) h = elim (Assoc.find r h.cells) [
  | none ↦ none
  | some c ↦ some (record h { cells = Assoc.insert r (c + 1) h.cells })
]

-- `CRefCountPtr( const CRefCountPtr<T>& rcf )`
unfoldable pub copy : Ptr → Heap → Option (Ptr × Heap)
copy rcf h = elim rcf.m_p_ref [
  | none ↦ some (rcf, h)
  | some r ↦ elim (add_ref (some r) h) [ none ↦ none | some h' ↦ some (rcf, h') ]
]

-- `delete m_p_obj`
unfoldable pub delete : Option ℕ → Heap → Heap
delete none h = h
delete (some o) h = record h { deleted = o ∷ h.deleted }

-- `Release`, where the count is `c`.
unfoldable pub drop_ref : ℕ → ℕ → Ptr → Heap → Ptr × Heap
drop_ref c r p h =
    if c == 0
    then (p, h)
    else if c - 1 == 0
    then (null, record (delete p.m_p_obj h) { cells = Assoc.erase r h.cells })
    else (p, record h { cells = Assoc.insert r (c - 1) h.cells })

-- `Release`: the pointer afterwards, and the heap.
unfoldable pub release : Ptr → Heap → Option (Ptr × Heap)
release p h = elim p.m_p_ref [
  | none ↦ some (p, h)
  | some r ↦ elim (Assoc.find r h.cells) [ none ↦ none | some c ↦ some (drop_ref c r p h) ]
]

-- `operator=` after `Release`: `p` is the pointer that is written, `rcf` the one that is read.
unfoldable pub take_over : Ptr → Ptr → Heap → Option (Ptr × Heap)
take_over p rcf h = elim rcf.m_p_obj [
  | none ↦ some (record p { m_p_obj = none }, h)
  | some o ↦ elim (add_ref rcf.m_p_ref h) [ none ↦ none | some h' ↦ some (rcf, h') ]
]
