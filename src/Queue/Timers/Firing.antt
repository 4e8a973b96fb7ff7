-- ===== src/Queue/Timers/Firing.antt =====
-- What `peek` and `get_wait_time` promise, and what rounds of `do_one_timer` come to.
use net_lib_wrapper.Prelude.{
  ℕ, ◌+◌, ◌≤◌, ◌<◌, ◌≡◌, ◌⊎◌, refl, inl, inr, ◌∙◌, Option, none, some, List, [], ◌∷◌, ◌==◌, leb,
  All, Bool-cases, arith, if◌then◌else◌,
}
use net_lib_wrapper.Queue.Timers.{Timer, end_time, insert_timer, restarted, peek, get_wait_time}
use net_lib_wrapper.Queue.Timers.Order.{
  find_timer, Earlier, IsTimers, insert_timer-find, insert_timer-IsTimers, tail-IsTimers, All-map,
}

-- No timer of the set has ended.
abbrev pub IsQuiet : ℕ → List Timer → Type 0
IsQuiet now q = All (λ u. now < end_time u) q

-- `t` is due and no timer of the set ends before it; in the set it has its old end as its start, and
-- is otherwise the same.
pub record Fires (now : ℕ) (q : List Timer) (t : Timer) (q' : List Timer) : Type 0 where
  pub due : end_time t ≤ now
  pub earliest : All (λ u. end_time t ≤ end_time u) q
  pub was_set : find_timer t.mui_id q ≡ some t
  pub now_set :
      (j : ℕ)
      → find_timer j q'
        ≡ (if t.mui_id == j then some (record t { mull_start = end_time t }) else find_timer j q)

abbrev pub Peeked : ℕ → List Timer → Option Timer → List Timer → Type 0
Peeked now q none q' = IsQuiet now q × (q' ≡ q)
Peeked now q (some t) q' = Fires now q t q'

Earlier-le : (t u : Timer) → Earlier t u → end_time t ≤ end_time u
Earlier-le t u h = ground arith

pub first_earliest :
    (t : Timer) (us : List Timer) → IsTimers (t ∷ us) → All (λ u. end_time t ≤ end_time u) (t ∷ us)
first_earliest t us v =
    (omega arith, All-map (Earlier t) (λ u. end_time t ≤ end_time u) us (Earlier-le t) v.ordered.0)

first-Fires :
    (now : ℕ) (t : Timer) (us : List Timer)
    → end_time t ≤ now
    → IsTimers (t ∷ us)
    → Fires now (t ∷ us) t (insert_timer (restarted t) us)
unfolding restarted end_time
first-Fires now t us h v = record {
  due = h;
  earliest = first_earliest t us v;
  was_set = ground arith;
  now_set = λ j. insert_timer-find (restarted t) j us v.distinct.0 ∙ ground arith;
}

-- `peek` gives a timer exactly when one is due, and then one that ends first; the set it leaves has
-- that timer with its old end as its start and its interval as before, has every other timer as
-- before, and is in order.
pub peek-Peeked :
    (now : ℕ) (q : List Timer)
    → IsTimers q
    → Peeked now q (peek now q).0 (peek now q).1 × IsTimers (peek now q).1
unfolding peek restarted
peek-Peeked now [] v = ((tt, refl), v)
peek-Peeked now (t ∷ us) v = elim (Bool-cases (leb (end_time t) now)) [
  | inl e ↦ rw (e) (
    first-Fires now t us (ground arith) v,
    insert_timer-IsTimers (restarted t) us v.distinct.0 (tail-IsTimers t us v),
  )
  | inr e ↦ rw (e) (
    (
      All-map (λ u. end_time t ≤ end_time u) (λ u. now < end_time u) (t ∷ us) (λ u h. ground arith)
          (first_earliest t us v),
      refl,
    ),
    v,
  )
]

-- The wait ends no later than the first timer, and it is nothing only if a timer is due.
pub get_wait_time-earliest :
    (now : ℕ) (q : List Timer)
    → IsTimers q
    → All (λ u. (now + get_wait_time now q ≤ end_time u) ⊎ (end_time u ≤ now)) q
unfolding get_wait_time
get_wait_time-earliest now [] v = tt
get_wait_time-earliest now (t ∷ us) v =
    All-map (λ u. end_time t ≤ end_time u)
      (λ u. (now + get_wait_time now (t ∷ us) ≤ end_time u) ⊎ (end_time u ≤ now)) (t ∷ us)
      (λ u h. ground arith) (first_earliest t us v)
