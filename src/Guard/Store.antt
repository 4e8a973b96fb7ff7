-- ===== src/Guard/Store.antt =====
-- A program's counted pointers, as named variables over one heap.
pub mod Laws
use net_lib_wrapper.Prelude.{ℕ, ◌≡◌, ◌≢◌, ◌⊎◌, Option, none, some, List, [], ◌∷◌}
use net_lib_wrapper.Prelude.Assoc
use net_lib_wrapper.Guard.{Ptr, Heap, construct, copy, release, take_over}

pub record Store : Type 0 where
  pub heap : Heap
  pub vars : List (ℕ × Ptr)

-- What a program does with them: `CRefCountPtr i( new T )`, `CRefCountPtr i( j )`, `i = j`, and the
-- end of the scope of `i`.
pub data Op : Type 0 where
  make destroy : ℕ → Op
  copied assigned : ℕ → ℕ → Op

abbrev pub with_var : ℕ → Store → (Ptr → Option Store) → Option Store
with_var i s next = elim (Assoc.find i s.vars) [ none ↦ none | some p ↦ next p ]

abbrev pub declared : ℕ → Store → Ptr × Heap → Store
declared i s (p, h) = record { heap = h; vars = Assoc.insert i p s.vars }

abbrev pub written : ℕ → Store → Ptr × Heap → Store
written i s (p, h) = record { heap = h; vars = Assoc.modify i (λ _. p) s.vars }

abbrev pub dropped : ℕ → Store → Ptr × Heap → Store
dropped i s (p, h) = record { heap = h; vars = Assoc.erase i s.vars }

abbrev pub after {ℓ} : {A : Type ℓ} → Option A → (A → Option Store) → Option Store
after none next = none
after (some a) next = next a

-- One of these; `none` is an access to freed memory. The object of a new pointer gets the number of
-- its count.
unfoldable pub apply : Op → Store → Option Store
apply (make i) s = some (declared i s (construct (some s.heap.next) s.heap))
apply (destroy i) s = with_var i s (λ p. after (release p s.heap) (λ r. some (dropped i s r)))
apply (copied i j) s = with_var j s (λ rcf. after (copy rcf s.heap) (λ r. some (declared i s r)))
apply (assigned i j) s = with_var i s (λ p. after (release p s.heap) (λ r.
    let s' = written i s r in
    with_var j s' (λ rcf. after (take_over r.0 rcf r.1) (λ r'. some (written i s' r')))))

abbrev pub start : Store
start = record { heap = record { cells = []; deleted = []; next = 0 }; vars = [] }

-- A program, from its first operation on.
abbrev pub run : List Op → Store → Option Store
run [] s = some s
run (op ∷ ops) s = after (apply op s) (run ops)
