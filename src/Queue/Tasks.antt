-- ===== src/Queue/Tasks.antt =====
-- samples/samples-client/include/task-queue.h: `TaskQueue` over a `std::list`.
use net_lib_wrapper.Prelude.{
  ℕ, ◌%◌, ◌^◌, Bool, true, false, Option, none, some, List, [], ◌∷◌, ◌++◌, length,
}

-- `m_tasks`
pub record TaskQueue {ℓ} (A : Type ℓ) : Type ℓ where
  pub tasks : List A

module _ {ℓ} {A : Type ℓ} where
  unfoldable pub push : TaskQueue A → A → TaskQueue A
  push q task = record { tasks = q.tasks ++ (task ∷ []) }

  unfoldable pub push_front : TaskQueue A → A → TaskQueue A
  push_front q task = record { tasks = task ∷ q.tasks }

  abbrev front : List A → Option A × TaskQueue A
  front [] = (none, record { tasks = [] })
  front (task ∷ rest) = (some task, record { tasks = rest })

  -- The task that is taken, with `none` for the result false.
  unfoldable pub pop : TaskQueue A → Option A × TaskQueue A
  pop q = front q.tasks

  abbrev no_tasks : List A → Bool
  no_tasks [] = true
  no_tasks (_ ∷ _) = false

  unfoldable pub empty : TaskQueue A → Bool
  empty q = no_tasks q.tasks

  -- The result as the word of an `int`.
  unfoldable pub size : TaskQueue A → ℕ
  size q = length q.tasks % 2 ^ 32
