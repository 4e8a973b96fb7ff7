-- ===== src/Singleton.antt =====
-- singletonHandler.h: CSingletonHandler with its double check, for threads that interleave.
pub mod Race
use net_lib_wrapper.Prelude.{
  ℕ, ◌+◌, ◌≡◌, Bool, true, false, Option, none, some, List, [], ◌∷◌, ◌++◌, ◌==◌, if◌then◌else◌,
}

-- What a thread does next: in Instance(), and, from `check_release` on, in Release().
pub data Pc : Type 0 where
  idle : Pc
  check init_lock take_lock check_again create give_lock hand_out : Pc
  check_release take_release check_release_again destroy clear give_release : Pc

-- `m_pInstance` as the number of an object, the holder of `m_Lock`, how many objects were created
-- and deleted, and what calls of Instance() have returned, oldest first.
pub record Shared : Type 0 where
  pub instance_no : Option ℕ
  pub lock : Option ℕ
  pub created : ℕ
  pub deleted : ℕ
  pub returned : List (Option ℕ)

-- `pthread_mutex_lock`, which waits while another thread holds the mutex.
unfoldable pub locked : ℕ → Pc → Shared → Option (Pc × Shared)
locked i p s = elim s.lock [ none ↦ some (p, record s { lock = some i }) | some j ↦ none ]

-- A test of `m_pInstance == NULL`.
unfoldable pub on_null : Pc → Pc → Shared → Option (Pc × Shared)
on_null p q s = elim s.instance_no [ none ↦ some (p, s) | some k ↦ some (q, s) ]

-- The next step of thread `i`, or `none` while it waits. `init` is what pthread_mutex_init makes of
-- the mutex.
module _ (init : Option ℕ → Option ℕ) where
  unfoldable pub turn : ℕ → Pc → Shared → Option (Pc × Shared)
  unfolding locked on_null
  turn i idle s = none
  turn i check s = on_null init_lock hand_out s
  turn i init_lock s = some (take_lock, record s { lock = init s.lock })
  turn i take_lock s = locked i check_again s
  turn i check_again s = on_null create give_lock s
  turn i create s =
      some (give_lock, record s { instance_no = some s.created; created = s.created + 1 })
  turn i give_lock s = some (hand_out, record s { lock = none })
  turn i hand_out s = some (idle, record s { returned = s.returned ++ (s.instance_no ∷ []) })
  turn i check_release s = on_null idle take_release s
  turn i take_release s = locked i check_release_again s
  turn i check_release_again s = on_null give_release destroy s
  turn i destroy s = some (clear, record s { deleted = s.deleted + 1 })
  turn i clear s = some (give_release, record s { instance_no = none })
  turn i give_release s = some (idle, record s { lock = none })

-- The threads, and what they share.
pub record System : Type 0 where
  pub shared : Shared
  pub pc : ℕ → Pc

abbrev pub update : (ℕ → Pc) → ℕ → Pc → ℕ → Pc
update f i p j = if j == i then p else f j

pub data Step (init : Option ℕ → Option ℕ) (s : System) : System → Type 0 where
  call : (i : ℕ) → s.pc i ≡ idle → Step init s (record s { pc = update s.pc i check })
  release : (i : ℕ) → s.pc i ≡ idle → Step init s (record s { pc = update s.pc i check_release })
  go :
      (i : ℕ) (p : Pc) (t : Shared)
      → turn init i (s.pc i) s.shared ≡ some (p, t)
      → Step init s (record { shared = t; pc = update s.pc i p })

pub data Reach (init : Option ℕ → Option ℕ) (s : System) : System → Type 0 where
  here : Reach init s s
  later : {t u : System} → Reach init s t → Step init t u → Reach init s u

abbrev pub fresh : System
fresh = record {
  shared = record { instance_no = none; lock = none; created = 0; deleted = 0; returned = [] };
  pc = λ _. idle;
}
