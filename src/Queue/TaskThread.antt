-- ===== src/Queue/TaskThread.antt =====
-- samples/samples-client/task-thread.cpp: `TaskThread`, the workers over one queue.
use net_lib_wrapper.Prelude.{
  ℕ, zero, suc, Option, none, some, List, [], ◌∷◌, ◌++◌, ◌==◌, if◌then◌else◌,
}
use net_lib_wrapper.Os.{Os}
use net_lib_wrapper.Queue.Threads
use net_lib_wrapper.Queue.Threads.{CallBack, ThreadQueue, new_queue}
use net_lib_wrapper.Epoll.Start.{Threads, creat_default}

-- `m_threads` and `m_queues`.
pub record TaskThread : Type 0 where
  pub threads : List ℕ
  pub queues : ThreadQueue

unfoldable pub new_task_thread : TaskThread
new_task_thread = record { threads = []; queues = new_queue }

-- `thread_proc`
abbrev pub thread_proc : ℕ
thread_proc = 3

-- A call of the program's functions: the function and its argument.
abbrev pub Call : Type 0
Call = ℕ × ℕ

-- `send_task`: the call is made at once.
unfoldable pub send_task : CallBack → Call
send_task task = (task.callback_func, task.arg)

unfoldable pub post_task : CallBack → TaskThread → TaskThread
post_task task t = record t { queues = Threads.post_task task t.queues }

unfoldable pub post_front_task : CallBack → TaskThread → TaskThread
post_front_task task t = record t { queues = Threads.post_front_task task t.queues }

unfoldable pub task_count : TaskThread → ℕ
task_count t = Threads.task_count t.queues

unfoldable pub set_timer : ℕ → ℕ → ℕ → ℕ → ℕ → TaskThread → TaskThread
set_timer now id elapse on_timer arg t = record t {
  queues = Threads.set_timer now id elapse on_timer arg t.queues;
}

unfoldable pub kill_timer : ℕ → TaskThread → TaskThread
kill_timer id t = record t { queues = Threads.kill_timer id t.queues }

module _ (os : Os) (lib : Threads os) where
  open os use {World}

  -- `p_tmp` starts as 0, and stays so if no thread is made.
  unfoldable pub begun_id : Option ℕ → List ℕ
  begun_id none = []
  begun_id (some id) = if id == 0 then [] else id ∷ []

  -- `begin`: the loop, with the threads left to start.
  unfoldable pub begin : ℕ → TaskThread → World → TaskThread × World
  begin zero t w = (t, w)
  begin (suc n) t w =
      let made = creat_default os lib thread_proc w in
      begin n (record t { threads = t.threads ++ begun_id made.0 }) made.1

  -- The joins of `end`.
  unfoldable pub join_all : List ℕ → World → World
  join_all [] w = w
  join_all (id ∷ ids) w = join_all ids (lib.pthread_join w id)

  -- `end`: the list of threads stays as it is.
  unfoldable pub end : TaskThread → World → TaskThread × World
  end t w = (record t { queues = Threads.notify_exit t.queues }, join_all t.threads w)
