-- ===== src/Tests/Queue.antt =====
-- Examples for Queue.
use net_lib_wrapper.Prelude.{◌+◌, ℕ, ◌/◌, ◌<◌, ◌≡◌, ◌⊎◌, refl, some, List, [], ◌∷◌, arith}
use mathlib.Core.List.{Perm}
use net_lib_wrapper.Queue.Tasks.{push, push_front, pop, empty}
use net_lib_wrapper.Queue.Timers.{Timer, get_tick_count, end_time, set_timer, peek}
use net_lib_wrapper.Queue.Timers.Order.{find_timer, IsTimers, set_timer-find}
use net_lib_wrapper.Queue.Timers.Firing.{Peeked, peek-Peeked}
use net_lib_wrapper.Queue.Threads.{
  CallBack, new_queue, post_task, post_front_task, notify_exit, Pc, ended, in_task, wait_until,
  loop_head, after_wait, after_timer, resume,
}
use net_lib_wrapper.Queue.Threads.Wait.{wait_until-end}
use net_lib_wrapper.Queue.Threads.System.{
  System, init, turned, posting, fronting, Reach, here, later, turn, post, post_front, all_turned,
}
use net_lib_wrapper.Queue.Threads.System.Laws.{Reach-taken}
use net_lib_wrapper.Queue.Threads.System.Progress.{Reach-exit, all_turned-ended, turned-taken}

abbrev timer : ℕ → ℕ → ℕ → Timer
timer id interval start = record {
  mui_id = id;
  mull_interval = interval;
  mull_start = start;
  on_timer = 70;
  func_arg = 80;
}

-- Timer 2 ends at 1500, timer 1 at 2000.
abbrev two_timers : List Timer
two_timers = timer 2 500 1000 ∷ timer 1 1000 1000 ∷ []

two_timers-IsTimers : IsTimers two_timers
unfolding end_time
two_timers-IsTimers = record { ordered = ground arith; distinct = ground arith }

set_timer-find_example :
    IsTimers (set_timer 1200 2 9000 70 80 two_timers)
    × (find_timer 1 (set_timer 1200 2 9000 70 80 two_timers) ≡ some (timer 1 1000 1000))
set_timer-find_example = set_timer-find 1200 2 9000 70 80 1 two_timers two_timers-IsTimers

peek-Peeked_example :
    Peeked 1700 two_timers (peek 1700 two_timers).0 (peek 1700 two_timers).1
    × IsTimers (peek 1700 two_timers).1
peek-Peeked_example = peek-Peeked 1700 two_timers two_timers-IsTimers

-- The clock stands at 1200 milliseconds, and at 1203 when it is read again.
wait_until-end_example :
    (get_tick_count
          (wait_until 1 200999 1203 two_timers).0
          ((wait_until 1 200999 1203 two_timers).1 / 1000)
        + 3
      ≡ 1500)
    × ((wait_until 1 200999 1203 two_timers).1 < 1000000000)
unfolding end_time get_tick_count
wait_until-end_example =
    wait_until-end 1 200999 1203 (timer 2 500 1000) (timer 1 1000 1000 ∷ []) (omega arith)
      (omega arith) (ground arith) (ground arith)

abbrev call : ℕ → CallBack
call n = record { callback_func = n; arg = n }

-- Two posts, one at the front, then a turn of worker 0 and one of worker 1.
abbrev both_taken : System
both_taken = turned 0 1 (turned 0 0 (fronting (call 8) (posting (call 7) init)))

both_taken-Reach : Reach 2 init both_taken
both_taken-Reach =
    later
      (later (later (later here (post (call 7))) (post_front (call 8))) (turn 0 0 (omega arith)))
      (turn 0 1 (omega arith))

Reach-taken_example : Perm (call 8 ∷ call 7 ∷ []) (call 7 ∷ call 8 ∷ [])
unfolding turned fronting posting resume loop_head post_front_task post_task new_queue empty
    push_front after_wait peek after_timer pop push
Reach-taken_example = Reach-taken both_taken-Reach

turned-taken_example :
    (more : List CallBack) × ((turned 0 0 (turned 0 0 (posting (call 7) init))).taken
      ≡ call 7 ∷ more)
unfolding turned fronting posting resume loop_head post_front_task post_task new_queue empty
    push_front after_wait peek after_timer pop push
turned-taken_example =
    turned-taken 0 0 0 (posting (call 7) init) (call 7) [] refl refl (λ e. grind arith)

-- The flag is raised while worker 0 runs its task; a post follows, and worker 1 takes a turn.
abbrev closing : System
closing = let s = turned 0 0 (posting (call 7) init) in record s { queue = notify_exit s.queue }

Reach-exit_example :
    (◌≡◌ {A = List CallBack} (call 7 ∷ []) (call 7 ∷ []))
    × (◌≡◌ {A = Pc} (in_task (call 7)) (in_task (call 7)) ⊎ (in_task (call 7) ≡ ended))
unfolding turned fronting posting resume loop_head post_front_task post_task new_queue empty
    push_front after_wait peek after_timer pop push notify_exit
Reach-exit_example =
    Reach-exit {n = 2} {s = closing} 0 refl
      (later (later here (post (call 9))) (turn 0 1 (omega arith)))

all_turned-ended_example : (all_turned 2 0 closing).pc 0 ≡ ended
unfolding turned fronting posting resume loop_head post_front_task post_task new_queue empty
    push_front after_wait peek after_timer pop push notify_exit
all_turned-ended_example = all_turned-ended 2 0 0 closing refl (omega arith)
