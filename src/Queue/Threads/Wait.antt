-- ===== src/Queue/Threads/Wait.antt =====
-- The time that `do_while` hands to `pthread_cond_timedwait`.
use net_lib_wrapper.Prelude.{ℕ, ◌+◌, ◌*◌, ◌/◌, ◌%◌, ◌^◌, ◌≤◌, ◌<◌, ◌≡◌, ◌-◌, List, ◌∷◌, arith}
use net_lib_wrapper.Queue.Timers.{Timer, get_tick_count, end_time, get_wait_time}
use net_lib_wrapper.Queue.Threads.{wait_until}

-- A time as milliseconds, and a wait added to it.
added_tick :
    (sec usec w : ℕ)
    → usec < 1000000
    → (sec + ((usec + (w % 1000) * 1000) * 1000) / 1000000000 + w / 1000) * 1000
        + ((usec + (w % 1000) * 1000) * 1000) % 1000000000 / 1000 / 1000
      ≡ sec * 1000 + usec / 1000 + w
added_tick sec usec w h = omega arith

no_wrap :
    (usec w : ℕ)
    → usec < 1000000
    → ((usec + (w % 1000) * 1000) * 1000) % 2 ^ 64 ≡ (usec + (w % 1000) * 1000) * 1000
no_wrap usec w h = omega arith

tick_small :
    (sec usec : ℕ)
    → usec < 1000000
    → sec < 2 ^ 50
    → get_tick_count sec usec ≡ sec * 1000 + usec / 1000
unfolding get_tick_count
tick_small sec usec h b = omega arith

-- The wait ends `get_wait_time` milliseconds after the first reading of the clock, with a number of
-- nanoseconds below a second.
pub wait_until-tick :
    (sec usec current : ℕ) (q : List Timer)
    → usec < 1000000
    → sec < 2 ^ 50
    → ((wait_until sec usec current q).0 * 1000 + (wait_until sec usec current q).1 / 1000 / 1000
        ≡ get_tick_count sec usec + get_wait_time current q)
      × ((wait_until sec usec current q).1 < 1000000000)
unfolding wait_until
wait_until-tick sec usec current q h b =
    let w = get_wait_time current q in
    let now = tick_small sec usec h b in
    rw (no_wrap usec w h) (omega (arith, added_tick sec usec w h, now), omega arith)

first_wait :
    (now : ℕ) (t : Timer) (us : List Timer)
    → now ≤ end_time t
    → now + get_wait_time now (t ∷ us) ≡ end_time t
unfolding get_wait_time
first_wait now t us h = ground arith

end_time_small : (t : Timer) → end_time t < 2 ^ 64
unfolding end_time
end_time_small t = omega arith

tick_of :
    (at : ℕ × ℕ) (e : ℕ)
    → e < 2 ^ 64
    → at.0 * 1000 + at.1 / 1000 / 1000 ≡ e
    → get_tick_count at.0 (at.1 / 1000) ≡ e
unfolding get_tick_count
tick_of at e b h = omega arith

-- If the first timer has not ended at the second reading of the clock, which is not before the
-- first, then the time at which the wait ends, in the milliseconds of `get_tick_count`, lies before
-- that timer's end by just the time between the two readings: the wait is never too long, and too
-- short by no more than that.
pub wait_until-end :
    (sec usec current : ℕ) (t : Timer) (us : List Timer)
    → usec < 1000000
    → sec < 2 ^ 50
    → get_tick_count sec usec ≤ current
    → current ≤ end_time t
    → let at = wait_until sec usec current (t ∷ us) in
      (get_tick_count at.0 (at.1 / 1000) + (current - get_tick_count sec usec) ≡ end_time t)
      × (at.1 < 1000000000)
wait_until-end sec usec current t us h b before le =
    let at = wait_until-tick sec usec current (t ∷ us) h b in
    let waits = first_wait current t us le in
    let ends = get_tick_count sec usec + get_wait_time current (t ∷ us) in
    let same : get_tick_count (wait_until sec usec current (t ∷ us)).0
          ((wait_until sec usec current (t ∷ us)).1 / 1000)
        ≡ ends =
      tick_of (wait_until sec usec current (t ∷ us)) ends
        (omega (arith, waits, before, end_time_small t)) at.0 in
    (rw same (omega (arith, waits, before)), at.1)
