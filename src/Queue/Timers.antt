-- ===== src/Queue/Timers.antt =====
-- samples/samples-client/timer-queue.cpp: `TimerQueue`, a `std::set` of timers in the order of their
-- ends. `get_tick_count` is read by the caller and handed in as `now`.
pub mod Order
pub mod Firing
pub mod Rounds
use net_lib_wrapper.Prelude.{
  ℕ, ◌+◌, ◌-◌, ◌*◌, ◌/◌, ◌%◌, ◌^◌, Bool, true, false, ◌&&◌, ◌||◌, Option, none, some, List, [], ◌∷◌,
  ltb, leb, ◌==◌, if◌then◌else◌,
}

-- `TimerQueue::Timer`: an `unsigned int`, two `unsigned long long`, and two pointers.
pub record Timer : Type 0 where
  pub mui_id : ℕ
  pub mull_interval : ℕ
  pub mull_start : ℕ
  pub on_timer : ℕ
  pub func_arg : ℕ

-- `gettimeofday` in milliseconds.
unfoldable pub get_tick_count : ℕ → ℕ → ℕ
get_tick_count tv_sec tv_usec = (tv_sec * 1000 + tv_usec / 1000) % 2 ^ 64

unfoldable pub end_time : Timer → ℕ
end_time t = (t.mull_start + t.mull_interval) % 2 ^ 64

-- `Timer::operator<`
unfoldable pub less : Timer → Timer → Bool
less t u = ltb (end_time t) (end_time u) || ((end_time t == end_time u) && ltb t.mui_id u.mui_id)

-- `ms_timers.insert`: of two timers that are not less than each other, the one in the set stays.
unfoldable pub insert_timer : Timer → List Timer → List Timer
insert_timer t [] = t ∷ []
insert_timer t (u ∷ us) =
    let rest = u ∷ insert_timer t us in
    if less t u then t ∷ u ∷ us else if less u t then rest else u ∷ us

-- `TimerQueue::erase`: the first timer with the id.
unfoldable pub erase_timer : ℕ → List Timer → List Timer
erase_timer id [] = []
erase_timer id (u ∷ us) = let rest = u ∷ erase_timer id us in if u.mui_id == id then us else rest

unfoldable pub set_timer : ℕ → ℕ → ℕ → ℕ → ℕ → List Timer → List Timer
set_timer now id elapse on_timer arg q =
    insert_timer
      (record {
        mui_id = id;
        mull_interval = elapse;
        mull_start = now;
        on_timer = on_timer;
        func_arg = arg;
      })
      (erase_timer id q)

unfoldable pub kill_timer : ℕ → List Timer → List Timer
kill_timer id q = erase_timer id q

-- The timer for its next round.
unfoldable pub restarted : Timer → Timer
restarted t = record t { mull_start = (t.mull_start + t.mull_interval) % 2 ^ 64 }

-- `peek`: the timer whose callback is due, with `none` for the result false, and the set.
unfoldable pub peek : ℕ → List Timer → Option Timer × List Timer
peek now [] = (none, [])
peek now (first ∷ rest) =
    if leb (end_time first) now
    then (some first, insert_timer (restarted first) rest)
    else (none, first ∷ rest)

-- `kWaitInfinite`: one hour.
abbrev pub wait_infinite : ℕ
wait_infinite = 60 * 60 * 1000

unfoldable pub get_wait_time : ℕ → List Timer → ℕ
get_wait_time now [] = wait_infinite
get_wait_time now (first ∷ rest) = if leb now (end_time first) then end_time first - now else 0
