-- ===== src/Queue/Threads/System.antt =====
-- Workers over one `ThreadQueue` (TaskThread::begin starts them), interleaved in any order with the
-- posts, the timers and the notice to exit of other threads and of the callbacks themselves.
pub mod Laws
pub mod Progress
use net_lib_wrapper.Prelude.{
  ℕ, zero, suc, ◌<◌, Bool, true, false, List, [], ◌∷◌, ◌++◌, ◌==◌, if◌then◌else◌,
}
use net_lib_wrapper.Queue.Threads.{
  CallBack, ThreadQueue, new_queue, post_task, post_front_task, set_timer, kill_timer, notify_exit,
  Pc, at_start, in_task, resume,
}

-- The queue and the workers, and what has been posted at the back, posted at the front, and taken by
-- some worker, oldest first.
pub record System : Type 0 where
  pub queue : ThreadQueue
  pub pc : ℕ → Pc
  pub posted : List CallBack
  pub fronted : List CallBack
  pub taken : List CallBack

abbrev pub update : (ℕ → Pc) → ℕ → Pc → ℕ → Pc
update f i p j = if j == i then p else f j

-- The task that a worker has just taken.
abbrev pub begun : Pc → List CallBack
begun (in_task task) = task ∷ []
begun _ = []

-- Worker `i` gets the mutex and runs until it lets it go.
unfoldable pub turned : ℕ → ℕ → System → System
turned now i s =
    let (p, q) = resume now (s.pc i) s.queue in
    record s { queue = q; pc = update s.pc i p; taken = s.taken ++ begun p }

unfoldable pub posting : CallBack → System → System
posting task s = record s { queue = post_task task s.queue; posted = s.posted ++ (task ∷ []) }

unfoldable pub fronting : CallBack → System → System
fronting task s = record s {
  queue = post_front_task task s.queue;
  fronted = s.fronted ++ (task ∷ []);
}

pub data Step (n : ℕ) (s : System) : System → Type 0 where
  turn : (now i : ℕ) → i < n → Step n s (turned now i s)
  post : (task : CallBack) → Step n s (posting task s)
  post_front : (task : CallBack) → Step n s (fronting task s)
  set :
      (now id elapse on_timer arg : ℕ)
      → Step n s (record s { queue = set_timer now id elapse on_timer arg s.queue })
  kill : (id : ℕ) → Step n s (record s { queue = kill_timer id s.queue })
  exit : Step n s (record s { queue = notify_exit s.queue })

pub data Reach (n : ℕ) (s : System) : System → Type 0 where
  here : Reach n s s
  later : {t u : System} → Reach n s t → Step n t u → Reach n s u

abbrev pub init : System
init = record { queue = new_queue; pc = λ _. at_start; posted = []; fronted = []; taken = [] }

-- Workers 0 to n - 1 each take a turn.
unfoldable pub all_turned : ℕ → ℕ → System → System
all_turned zero now s = s
all_turned (suc n) now s = turned now n (all_turned n now s)
