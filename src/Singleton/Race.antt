-- ===== src/Singleton/Race.antt =====
-- Two objects, where pthread_mutex_init makes a mutex that is held free.
use net_lib_wrapper.Prelude.{ℕ, ◌≡◌, refl, ap, Option, none, some, []}
use net_lib_wrapper.Singleton.{
  Pc, init_lock, take_lock, check_again, create, give_lock, Shared, turn, System, Step, Reach,
  fresh,
}

-- The shared state with no object deleted.
abbrev seen : Option ℕ → Option ℕ → ℕ → Shared
seen lock instance_no created = record {
  instance_no = instance_no;
  lock = lock;
  created = created;
  deleted = 0;
  returned = [];
}

-- Where pthread_mutex_init makes a mutex free, also one that a thread holds, two threads that call
-- Instance() for the first time can each create an object, and none is deleted.
pub Reach-two :
    (init : Option ℕ → Option ℕ)
    → ((o : Option ℕ) → init o ≡ none)
    → (s : System) × Reach init fresh s × (s.shared.created ≡ 2) × (s.shared.deleted ≡ 0)
unfolding turn
Reach-two init free =
    let opened : (o : Option ℕ)
        → ◌≡◌ {A = Option (Pc × Shared)} (some (take_lock, seen (init o) none 0))
            (some (take_lock, seen none none 0)) =
      λ o. ap (λ (l : Option ℕ). some (take_lock, seen l none 0)) (free o) in
    let begun : Reach init fresh _ =
      Reach.later (Reach.later Reach.here (Step.call 0 refl)) (Step.call 1 refl) in
    let both : Reach init fresh _ =
      Reach.later (Reach.later begun (Step.go 0 init_lock (seen none none 0) refl))
        (Step.go 1 init_lock (seen none none 0) refl) in
    let first_in : Reach init fresh _ =
      Reach.later
        (Reach.later (Reach.later both (Step.go 0 take_lock (seen none none 0) (opened none)))
          (Step.go 0 check_again (seen (some 0) none 0) refl))
        (Step.go 0 create (seen (some 0) none 0) refl) in
    let second_in : Reach init fresh _ =
      Reach.later
        (Reach.later
          (Reach.later first_in (Step.go 1 take_lock (seen none none 0) (opened (some 0))))
          (Step.go 1 check_again (seen (some 1) none 0) refl))
        (Step.go 1 create (seen (some 1) none 0) refl) in
    (
      _,
      Reach.later (Reach.later second_in (Step.go 0 give_lock (seen (some 1) (some 0) 1) refl))
          (Step.go 1 give_lock (seen (some 1) (some 1) 2) refl),
      refl,
      refl,
    )
