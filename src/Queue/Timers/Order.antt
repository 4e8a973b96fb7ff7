-- ===== src/Queue/Timers/Order.antt =====
-- The set of timers: its order, one timer for an id, and lookups by id.
use net_lib_wrapper.Prelude.{
  ℕ, ◌<◌, ◌≡◌, ◌≢◌, ◌⊎◌, refl, true, false, Option, none, some, List, [], ◌∷◌, ◌==◌, All,
  Bool-cases, sym, inl, inr, ◌∙◌, arith, if◌then◌else◌,
}
use net_lib_wrapper.Queue.Timers.{Timer, end_time, less, insert_timer, erase_timer, set_timer}

-- The timer with an id.
abbrev pub find_timer : ℕ → List Timer → Option Timer
find_timer id [] = none
find_timer id (u ∷ us) = if u.mui_id == id then some u else find_timer id us

abbrev pub Earlier : Timer → Timer → Type 0
Earlier t u = (end_time t < end_time u) ⊎ ((end_time t ≡ end_time u) × (t.mui_id < u.mui_id))

abbrev pub Other : ℕ → Timer → Type 0
Other id u = id ≢ u.mui_id

abbrev pub IsOrdered : List Timer → Type 0
IsOrdered [] = Unit {0}
IsOrdered (t ∷ us) = All (Earlier t) us × IsOrdered us

abbrev pub IsDistinct : List Timer → Type 0
IsDistinct [] = Unit {0}
IsDistinct (t ∷ us) = All (Other t.mui_id) us × IsDistinct us

-- What the set keeps: the order of the ends, and one timer for an id.
pub record IsTimers (q : List Timer) : Type 0 where
  pub ordered : IsOrdered q
  pub distinct : IsDistinct q

less-Earlier : (t u : Timer) → less t u ≡ true → Earlier t u
unfolding less
less-Earlier t u h = ground arith

not_less-Earlier : (t u : Timer) → Other t.mui_id u → less t u ≡ false → Earlier u t
unfolding less
not_less-Earlier t u o h = ground arith

pub Earlier-less : (t u : Timer) → Earlier t u → less t u ≡ true
unfolding less
Earlier-less t u h = ground arith

Earlier-trans : (t u v : Timer) → Earlier t u → Earlier u v → Earlier t v
Earlier-trans t u v h k = ground arith

pub insert_timer-find :
    (t : Timer) (j : ℕ) (q : List Timer)
    → All (Other t.mui_id) q
    → find_timer j (insert_timer t q) ≡ (if t.mui_id == j then some t else find_timer j q)
unfolding insert_timer
insert_timer-find t j [] f = refl
insert_timer-find t j (u ∷ us) f =
    ground (arith, insert_timer-find t j us f.1, not_less-Earlier t u f.0, Earlier-less u t)

pub insert_timer-All :
    (P : Timer → Type 0) (t : Timer) (q : List Timer) → P t → All P q → All P (insert_timer t q)
unfolding insert_timer
insert_timer-All P t [] p a = (p, tt)
insert_timer-All P t (u ∷ us) p a = ground (arith, insert_timer-All P t us p a.1)

pub All-map :
    (P Q : Timer → Type 0) (q : List Timer) → ((u : Timer) → P u → Q u) → All P q → All Q q
All-map P Q [] f a = tt
All-map P Q (u ∷ us) f a = (f u a.0, All-map P Q us f a.1)

insert_timer-IsOrdered :
    (t : Timer) (q : List Timer)
    → All (Other t.mui_id) q
    → IsOrdered q
    → IsOrdered (insert_timer t q)
unfolding insert_timer
insert_timer-IsOrdered t [] f o = (tt, tt)
insert_timer-IsOrdered t (u ∷ us) f o = elim (Bool-cases (less t u)) [
  | inl e ↦
      let first = less-Earlier t u e in
      rw (e) ((first, All-map (Earlier u) (Earlier t) us (λ v. Earlier-trans t u v first) o.0), o)
  | inr e ↦
      let first = not_less-Earlier t u f.0 e in
      rw (e, Earlier-less u t first)
        (insert_timer-All (Earlier u) t us first o.0, insert_timer-IsOrdered t us f.1 o.1)
]

insert_timer-IsDistinct :
    (t : Timer) (q : List Timer)
    → All (Other t.mui_id) q
    → IsOrdered q
    → IsDistinct q
    → IsDistinct (insert_timer t q)
unfolding insert_timer
insert_timer-IsDistinct t [] f o d = (tt, tt)
insert_timer-IsDistinct t (u ∷ us) f o d = elim (Bool-cases (less t u)) [
  | inl e ↦ rw (e) (f, d)
  | inr e ↦
      rw (e, Earlier-less u t (not_less-Earlier t u f.0 e))
        (
          insert_timer-All (Other u.mui_id) t us (λ q. f.0 (sym q)) d.0,
          insert_timer-IsDistinct t us f.1 o.1 d.1,
        )
]

pub insert_timer-IsTimers :
    (t : Timer) (q : List Timer) → All (Other t.mui_id) q → IsTimers q → IsTimers (insert_timer t q)
insert_timer-IsTimers t q f v = record {
  ordered = insert_timer-IsOrdered t q f v.ordered;
  distinct = insert_timer-IsDistinct t q f v.ordered v.distinct;
}

pub tail-IsTimers : (t : Timer) (us : List Timer) → IsTimers (t ∷ us) → IsTimers us
tail-IsTimers t us v = record { ordered = v.ordered.1; distinct = v.distinct.1 }

erase_timer-All :
    (P : Timer → Type 0) (id : ℕ) (q : List Timer) → All P q → All P (erase_timer id q)
unfolding erase_timer
erase_timer-All P id [] a = tt
erase_timer-All P id (u ∷ us) a = ground (arith, erase_timer-All P id us a.1)

erase_timer-Other : (id : ℕ) (q : List Timer) → IsDistinct q → All (Other id) (erase_timer id q)
unfolding erase_timer
erase_timer-Other id [] d = tt
erase_timer-Other id (u ∷ us) d = ground (arith, erase_timer-Other id us d.1)

erase_timer-IsOrdered : (id : ℕ) (q : List Timer) → IsOrdered q → IsOrdered (erase_timer id q)
unfolding erase_timer
erase_timer-IsOrdered id [] o = tt
erase_timer-IsOrdered id (u ∷ us) o =
    ground (arith, erase_timer-IsOrdered id us o.1, erase_timer-All (Earlier u) id us o.0)

erase_timer-IsDistinct : (id : ℕ) (q : List Timer) → IsDistinct q → IsDistinct (erase_timer id q)
unfolding erase_timer
erase_timer-IsDistinct id [] d = tt
erase_timer-IsDistinct id (u ∷ us) d =
    ground (arith, erase_timer-IsDistinct id us d.1, erase_timer-All (Other u.mui_id) id us d.0)

pub erase_timer-IsTimers : (id : ℕ) (q : List Timer) → IsTimers q → IsTimers (erase_timer id q)
erase_timer-IsTimers id q v = record {
  ordered = erase_timer-IsOrdered id q v.ordered;
  distinct = erase_timer-IsDistinct id q v.distinct;
}

pub Other-find : (id : ℕ) (q : List Timer) → All (Other id) q → find_timer id q ≡ none
Other-find id [] a = refl
Other-find id (u ∷ us) a = ground (arith, Other-find id us a.1)

-- A lookup after `kill_timer`.
pub erase_timer-find :
    (id j : ℕ) (q : List Timer)
    → IsDistinct q
    → find_timer j (erase_timer id q) ≡ (if id == j then none else find_timer j q)
unfolding erase_timer
erase_timer-find id j [] d = ground arith
erase_timer-find id j (u ∷ us) d = ground (arith, erase_timer-find id j us d.1, Other-find id us)

-- A new timer replaces the one with its id, starts now, and leaves the other timers as they are; the
-- set stays in order with one timer for an id.
pub set_timer-find :
    (now id elapse on_timer arg j : ℕ) (q : List Timer)
    → IsTimers q
    → IsTimers (set_timer now id elapse on_timer arg q)
      × (find_timer j (set_timer now id elapse on_timer arg q) ≡ (
          if id == j
          then some (record {
            mui_id = id;
            mull_interval = elapse;
            mull_start = now;
            on_timer = on_timer;
            func_arg = arg;
          })
          else find_timer j q))
unfolding set_timer
set_timer-find now id elapse on_timer arg j q v =
    let t : Timer = record {
      mui_id = id;
      mull_interval = elapse;
      mull_start = now;
      on_timer = on_timer;
      func_arg = arg;
    } in
    let fresh = erase_timer-Other id q v.distinct in
    let kept = erase_timer-find id j q v.distinct in
    (
      insert_timer-IsTimers t (erase_timer id q) fresh (erase_timer-IsTimers id q v),
      insert_timer-find t j (erase_timer id q) fresh ∙ ground (arith, kept),
    )
