-- ===== src/Tests/Guard.antt =====
-- Examples for Guard.
use net_lib_wrapper.Prelude.{◌≡◌, refl, Option, none, some, [], ◌∷◌, Returns, arith}
use mathlib.Core.Option
use net_lib_wrapper.Prelude.Assoc.{find, insert, erase, modify}
use net_lib_wrapper.Guard.{
  Ptr, Heap, null, construct, add_ref, delete, drop_ref, release, take_over,
}
use net_lib_wrapper.Guard.Store.{Store, make, assigned, apply}
use net_lib_wrapper.Guard.Store.Laws.{Counted, Reach, begun, later, Reach-Counted, apply-Counted}

abbrev two_pointers : Store
two_pointers = record {
  heap = record { cells = (0, 1) ∷ (1, 1) ∷ []; deleted = []; next = 2 };
  vars =
      (5, record { m_p_obj = some 0; m_p_ref = some 0 })
      ∷ (6, record { m_p_obj = some 1; m_p_ref = some 1 })
      ∷ [];
}

two_pointers-Reach : Reach two_pointers
unfolding apply construct insert find
two_pointers-Reach = later (make 6) (later (make 5) begun refl refl) refl refl

apply-Counted_example : Returns Counted (apply (assigned 5 6) two_pointers)
unfolding find
apply-Counted_example =
    apply-Counted (assigned 5 6) two_pointers
      (
        (λ e. absurd (ground arith)),
        (
          record { m_p_obj = some 0; m_p_ref = some 0 },
          record { m_p_obj = some 1; m_p_ref = some 1 },
          1,
          refl,
          refl,
          refl,
        ),
      )
      (Reach-Counted two_pointers-Reach)

-- The assignment deletes object 0, which no pointer holds any more.
assigned_deletes :
    Option.map (λ s. s.heap.deleted) (apply (assigned 5 6) two_pointers) ≡ some (0 ∷ [])
unfolding apply find insert erase modify release drop_ref delete take_over add_ref
assigned_deletes = refl

-- Assigned to itself, the only pointer to an object deletes it and is NULL.
assigned_to_itself :
    Option.map (λ s. find 5 s.vars) (apply (assigned 5 5) two_pointers)
    ≡ some (some (record { m_p_obj = none; m_p_ref = none }))
unfolding apply find insert erase modify release drop_ref delete take_over add_ref
assigned_to_itself = refl

-- Of two pointers to an object, one is assigned NULL and keeps the address of the count, so that the
-- end of its scope counts down again, and the other reads a count that is gone.
abbrev shared : Ptr
shared = record { m_p_obj = some 0; m_p_ref = some 0 }

abbrev two_holders : Heap
two_holders = record { cells = (0, 2) ∷ []; deleted = []; next = 1 }

abbrev bind {ℓ κ} : {A : Type ℓ} {B : Type κ} → Option A → (A → Option B) → Option B
bind none f = none
bind (some a) f = f a

assigned_null :
    bind
      (release shared two_holders)
      (λ r. bind (take_over r.0 null r.1) (λ r. bind (release r.0 r.1) (λ r. release shared r.1)))
    ≡ none
unfolding find insert erase release drop_ref delete take_over
assigned_null = refl
