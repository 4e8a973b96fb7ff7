-- ===== src/Queue/Timers/Rounds.antt =====
-- Rounds of `peek` at one time: they end with no timer due, and a timer keeps to its period.
use net_lib_wrapper.Prelude.{
  ℕ, zero, suc, ◌+◌, ◌-◌, ◌*◌, ◌^◌, ◌≤◌, ◌<◌, ◌≡◌, refl, sym, subst, ==_iff, inl, inr, ◌∙◌, ap,
  true, Option, none, some, List, [], ◌∷◌, ◌==◌, leb, leb→le, All, Bool-cases, arith, if◌then◌else◌,
}
use mathlib.Core.Option
use net_lib_wrapper.Queue.Timers.{Timer, end_time, less, insert_timer, restarted, peek}
use net_lib_wrapper.Queue.Timers.Order.{
  find_timer, Earlier, Earlier-less, Other, IsTimers, insert_timer-All, All-map,
}
use net_lib_wrapper.Queue.Timers.Firing.{IsQuiet, Peeked, peek-Peeked, first_earliest}

abbrev called : Option Timer → List ℕ → List ℕ
called none ids = ids
called (some t) ids = t.mui_id ∷ ids

-- `n` calls of `peek` at the time `now`: the ids that were called, and the set.
unfoldable pub rounds : ℕ → ℕ → List Timer → List ℕ × List Timer
rounds zero now q = ([], q)
rounds (suc n) now q =
    let (o, q') = peek now q in let (ids, q'') = rounds n now q' in (called o ids, q'')

abbrev pub count : ℕ → List ℕ → ℕ
count j [] = 0
count j (i ∷ ids) = (if i == j then 1 else 0) + count j ids

-- A period that is not 0, of 32 bits, and an end that does not wrap.
abbrev pub Ticks : Timer → Type 0
Ticks u =
    (0 < u.mull_interval) × ((u.mull_interval < 2 ^ 32) × (u.mull_start + u.mull_interval < 2 ^ 64))

abbrev pub repeated : ℕ → ℕ → List ℕ
repeated zero i = []
repeated (suc n) i = i ∷ repeated n i

-- The milliseconds by which the timers are late, all together.
abbrev pub backlog : ℕ → List Timer → ℕ
backlog now [] = 0
backlog now (u ∷ us) = (now + 1 - end_time u) + backlog now us

backlog-insert_timer :
    (now : ℕ) (t : Timer) (q : List Timer)
    → All (Other t.mui_id) q
    → backlog now (insert_timer t q) ≡ (now + 1 - end_time t) + backlog now q
unfolding insert_timer less
backlog-insert_timer now t [] f = refl
backlog-insert_timer now t (u ∷ us) f = ground (arith, backlog-insert_timer now t us f.1)

restarted-Ticks :
    (now : ℕ) (t : Timer)
    → now + 2 ^ 32 ≤ 2 ^ 64
    → end_time t ≤ now
    → Ticks t
    → Ticks (restarted t) × (end_time (restarted t) ≡ end_time t + t.mull_interval)
unfolding restarted end_time
restarted-Ticks now t b h k = ground arith

IsQuiet-backlog : (now : ℕ) (q : List Timer) → IsQuiet now q → backlog now q ≡ 0
IsQuiet-backlog now [] h = refl
IsQuiet-backlog now (u ∷ us) h = omega (arith, h.0, IsQuiet-backlog now us h.1)

first-IsQuiet :
    (now : ℕ) (t : Timer) (us : List Timer)
    → IsTimers (t ∷ us)
    → now < end_time t
    → IsQuiet now (t ∷ us)
first-IsQuiet now t us v h =
    All-map (λ u. end_time t ≤ end_time u) (λ u. now < end_time u) (t ∷ us) (λ u k. omega arith)
      (first_earliest t us v)

-- A call of `peek` keeps the periods, and the timers are then less late, or not late at all.
peek-Ticks :
    (now : ℕ) (q : List Timer)
    → now + 2 ^ 32 ≤ 2 ^ 64
    → IsTimers q
    → All Ticks q
    → All Ticks (peek now q).1 × (backlog now (peek now q).1 ≤ backlog now q - 1)
unfolding peek restarted
peek-Ticks now [] b v a = (tt, omega arith)
peek-Ticks now (t ∷ us) b v a = elim (Bool-cases (leb (end_time t) now)) [
  | inl e ↦
      let next = restarted-Ticks now t b (ground arith) a.0 in
      rw (e) (
        insert_timer-All Ticks (restarted t) us next.0 a.1,
        omega (
          arith,
          leb→le (end_time t) now e,
          backlog-insert_timer now (restarted t) us v.distinct.0,
          next.1,
          a.0.0,
        ),
      )
  | inr e ↦
      let none_late = IsQuiet-backlog now (t ∷ us) (first-IsQuiet now t us v (ground arith)) in
      rw (e) (a, omega (arith, none_late))
]

-- A timer that has started again `k` times.
abbrev pub advanced : ℕ → Timer → Timer
advanced k u = record u { mull_start = u.mull_start + k * u.mull_interval }

advanced-zero : (o : Option Timer) → Option.map (advanced 0) o ≡ o
advanced-zero none = refl
advanced-zero (some u) = ground arith

advanced-add :
    (a b : ℕ) (o : Option Timer)
    → Option.map (advanced a) (Option.map (advanced b) o) ≡ Option.map (advanced (b + a)) o
advanced-add a b none = refl
advanced-add a b (some u) = ap some (ap (λ s. record u { mull_start = s }) (omega arith))

restarted-advanced : (t : Timer) → Ticks t → restarted t ≡ advanced 1 t
unfolding restarted
restarted-advanced t h = ap (λ s. record t { mull_start = s }) (omega (arith, h.1.1))

find_timer-Ticks :
    (j : ℕ) (t : Timer) (q : List Timer) → All Ticks q → find_timer j q ≡ some t → Ticks t
find_timer-Ticks j t [] a h = absurd (ground arith)
find_timer-Ticks j t (u ∷ us) a h = ground (arith, find_timer-Ticks j t us a.1)

Peeked-find :
    (now j : ℕ) (q q' : List Timer) (o : Option Timer)
    → All Ticks q
    → Peeked now q o q'
    → find_timer j q' ≡ Option.map (advanced (count j (called o []))) (find_timer j q)
unfolding restarted end_time
Peeked-find now j q q' none a p = rw (p.1) (sym (advanced-zero (find_timer j q)))
Peeked-find now j q q' (some t) a p = elim (Bool-cases (t.mui_id == j)) [
  | inl e ↦
      let found = subst (λ k. find_timer k q ≡ some t) ((==_iff t.mui_id j).0 e) p.was_set in
      rw (e, found)
        (rw (p.now_set j, e)
          (ap some (restarted-advanced t (find_timer-Ticks t.mui_id t q a p.was_set))))
  | inr e ↦ rw (e) (rw (p.now_set j, e) (sym (advanced-zero (find_timer j q))))
]

called-count :
    (j : ℕ) (o : Option Timer) (ids : List ℕ)
    → count j (called o ids) ≡ count j (called o []) + count j ids
called-count j none ids = omega arith
called-count j (some t) ids = omega arith

-- No timer drifts: after `n` rounds at one time, a timer has started again as many times as it was
-- called, each time by its period, however late the rounds were.
pub rounds-find :
    (n now j : ℕ) (q : List Timer)
    → now + 2 ^ 32 ≤ 2 ^ 64
    → IsTimers q
    → All Ticks q
    → find_timer j (rounds n now q).1
      ≡ Option.map (advanced (count j (rounds n now q).0)) (find_timer j q)
unfolding rounds
rounds-find zero now j q b v a = sym (advanced-zero (find_timer j q))
rounds-find (suc n) now j q b v a =
    let o = (peek now q).0 in
    let q' = (peek now q).1 in
    let ids = (rounds n now q').0 in
    let seen = peek-Peeked now q v in
    rw (called-count j o ids) (
      rounds-find n now j q' b seen.1 (peek-Ticks now q b v a).0
      ∙ (ap (Option.map (advanced (count j ids))) (Peeked-find now j q q' o a seen.0)
          ∙ advanced-add (count j ids) (count j (called o [])) (find_timer j q)))

insert_first : (t : Timer) (us : List Timer) → All (Earlier t) us → insert_timer t us ≡ t ∷ us
unfolding insert_timer
insert_first t [] a = refl
insert_first t (u ∷ us) a = rw (Earlier-less t u a.0)

peek-zero :
    (now : ℕ) (t : Timer) (us : List Timer)
    → t.mull_interval ≡ 0
    → t.mull_start ≤ now
    → now < 2 ^ 64
    → All (Earlier t) us
    → peek now (t ∷ us) ≡ (some t, t ∷ us)
unfolding peek end_time restarted
peek-zero now t us z s b a =
    let due : leb (end_time t) now ≡ true = ground arith in
    let same : restarted t ≡ t = ap (λ s. record t { mull_start = s }) (omega arith) in
    rw (due, same, insert_first t us a)

-- A timer with period 0 that is due is the only one called, however many rounds are made, and the
-- set stays as it is: a timer behind it is never called.
pub rounds-zero :
    (n now : ℕ) (t : Timer) (us : List Timer)
    → t.mull_interval ≡ 0
    → t.mull_start ≤ now
    → now < 2 ^ 64
    → IsTimers (t ∷ us)
    → ((rounds n now (t ∷ us)).1 ≡ t ∷ us) × ((rounds n now (t ∷ us)).0 ≡ repeated n t.mui_id)
unfolding rounds
rounds-zero zero now t us z s b v = (refl, refl)
rounds-zero (suc n) now t us z s b v =
    let more = rounds-zero n now t us z s b v in
    rw (peek-zero now t us z s b v.ordered.0) (more.0, ap (◌∷◌ t.mui_id) more.1)
