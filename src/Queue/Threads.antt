-- ===== src/Queue/Threads.antt =====
-- samples/samples-client/include/thread-queue.h: `ThreadQueue`, and its worker loop `do_while` cut at
-- the points where a worker lets the mutex go: the wait and the two calls of callbacks.
pub mod System
pub mod Wait
use net_lib_wrapper.Prelude.{
  ℕ, ◌+◌, ◌-◌, ◌*◌, ◌/◌, ◌%◌, ◌^◌, Bool, true, false, ◌&&◌, ◌||◌, Option, none, some, List, [], ◌∷◌,
  if◌then◌else◌,
}
use net_lib_wrapper.Queue.Tasks
use net_lib_wrapper.Queue.Tasks.{TaskQueue}
use net_lib_wrapper.Queue.Timers
use net_lib_wrapper.Queue.Timers.{Timer, get_tick_count, get_wait_time, peek}

-- `CallBackStruct`: two pointers.
pub record CallBack : Type 0 where
  pub callback_func : ℕ
  pub arg : ℕ

pub record ThreadQueue : Type 0 where
  pub task_queue : TaskQueue CallBack
  pub timer_queue : List Timer
  pub exit_flag : Bool

unfoldable pub new_queue : ThreadQueue
new_queue = record { task_queue = record { tasks = [] }; timer_queue = []; exit_flag = false }

unfoldable pub post_task : CallBack → ThreadQueue → ThreadQueue
post_task task q = record q { task_queue = Tasks.push q.task_queue task }

unfoldable pub post_front_task : CallBack → ThreadQueue → ThreadQueue
post_front_task task q = record q { task_queue = Tasks.push_front q.task_queue task }

unfoldable pub task_count : ThreadQueue → ℕ
task_count q = Tasks.size q.task_queue

unfoldable pub set_timer : ℕ → ℕ → ℕ → ℕ → ℕ → ThreadQueue → ThreadQueue
set_timer now id elapse on_timer arg q = record q {
  timer_queue = Timers.set_timer now id elapse on_timer arg q.timer_queue;
}

unfoldable pub kill_timer : ℕ → ThreadQueue → ThreadQueue
kill_timer id q = record q { timer_queue = Timers.kill_timer id q.timer_queue }

unfoldable pub notify_exit : ThreadQueue → ThreadQueue
notify_exit q = record q { exit_flag = true }

-- Where a worker stands when it does not hold the mutex.
pub data Pc : Type 0 where
  at_start : Pc  -- before `do_while`
  waiting : Pc  -- in `pthread_cond_timedwait`
  in_timer : (id arg : ℕ) → Pc  -- in `on_timer`
  in_task : CallBack → Pc  -- in `task.callback_func`
  ended : Pc  -- after `do_while`

-- `pthread_cond_timedwait`'s time, seconds and nanoseconds, from `gettimeofday`. The clock is read
-- again inside `get_wait_time`: `current` is that later reading, in milliseconds.
unfoldable pub wait_until : ℕ → ℕ → ℕ → List Timer → ℕ × ℕ
wait_until tv_sec tv_usec current timers =
    let t_wait = get_wait_time current timers in
    let ul_nsec = ((tv_usec + (t_wait % 1000) * 1000) * 1000) % 2 ^ 64 in
    (tv_sec + ul_nsec / 1000000000 + t_wait / 1000, ul_nsec % 1000000000)

-- `do_one_task` found no task: the list is still empty, so that the loop comes round to the wait.
unfoldable pub came_round : ThreadQueue → Pc × ThreadQueue
came_round q = if q.exit_flag then (ended, q) else (waiting, q)

-- After `do_one_timer`: the test of the flag, and `do_one_task`.
unfoldable pub after_timer : ThreadQueue → Pc × ThreadQueue
after_timer q =
    let (popped, task_queue) = Tasks.pop q.task_queue in
    if q.exit_flag then (ended, q) else elim popped [
      | none ↦ came_round q
      | some task ↦ (in_task task, record q { task_queue = task_queue })
    ]

-- After the wait: the test of the flag, and `do_one_timer`.
unfoldable pub after_wait : ℕ → ThreadQueue → Pc × ThreadQueue
after_wait now q =
    let (due, timer_queue) = peek now q.timer_queue in
    if q.exit_flag then (ended, q) else elim due [
      | none ↦ after_timer q
      | some t ↦ (in_timer t.mui_id t.func_arg, record q { timer_queue = timer_queue })
    ]

-- The head of the loop.
unfoldable pub loop_head : ℕ → ThreadQueue → Pc × ThreadQueue
loop_head now q =
    if q.exit_flag
    then (ended, q)
    else if Tasks.empty q.task_queue
    then (waiting, q)
    else after_wait now q

-- After `do_one_task`: the last test of the flag, and the next round.
unfoldable pub after_task : ℕ → ThreadQueue → Pc × ThreadQueue
after_task now q = if q.exit_flag then (ended, q) else loop_head now q

-- A worker gets the mutex and runs until it lets it go. The wait may end at any time.
unfoldable pub resume : ℕ → Pc → ThreadQueue → Pc × ThreadQueue
resume now at_start q = loop_head now q
resume now waiting q = after_wait now q
resume now (in_timer _ _) q = after_timer q
resume now (in_task _) q = after_task now q
resume now ended q = (ended, q)
