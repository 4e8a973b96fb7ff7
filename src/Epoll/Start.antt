-- ===== src/Epoll/Start.antt =====
-- ms-epoll.cpp: `ms_pthread_creat`, and `init` and `end` of MsEpoll, which MsUdpEpoll's are without
-- the second thread. The thread library is a parameter.
pub mod Outcome
use net_lib_wrapper.Prelude.{
  ℕ, Bool, true, false, Option, none, some, List, [], ◌∷◌, ◌&&◌, ltb, ◌==◌, if◌then◌else◌,
}
use net_lib_wrapper.Os.{Os, Fd, Reply}
use net_lib_wrapper.Tcp.Table.{Tcp, free_all_link_map}

-- A `pthread_attr_t`: what the calls below set and get.
pub record Attr : Type 0 where
  pub stack_size : ℕ
  pub policy : ℕ
  pub priority : ℕ
  pub detached : Bool

-- `epoll_create`, `eventfd`, and the calls of pthread and sched. A thread is known by its id.
pub record Threads (os : Os) : Type 0 where
  pub epoll_create : os.World → Fd × os.World
  pub eventfd : os.World → Fd × os.World
  pub attr_init : os.World → Option Attr × os.World
  pub attr_getstacksize : Attr → Option ℕ
  pub stack_min : ℕ
  pub priority_max : ℕ → ℕ
  pub priority_min : ℕ → ℕ
  pub pthread_create : os.World → Attr → ℕ → ℕ → Option ℕ × os.World
  pub pthread_join : os.World → ℕ → os.World

-- The members of MsEpoll. A thread id 0 is none.
pub record MsEpoll : Type 0 where
  pub mi_epoll_fd : Fd
  pub mi_exit_event : Fd
  pub m_pthread_id : ℕ
  pub m_pthread_timeout : ℕ
  pub mb_timeout_thread_flag : Bool

-- The constructor.
unfoldable pub new_epoll : MsEpoll
new_epoll = record {
  mi_epoll_fd = none;
  mi_exit_event = none;
  m_pthread_id = 0;
  m_pthread_timeout = 0;
  mb_timeout_thread_flag = false;
}

-- The thread functions.
abbrev pub worker_thread : ℕ
worker_thread = 1

abbrev pub timeout_thread_proc : ℕ
timeout_thread_proc = 2

module _ (os : Os) (threads : Threads os) where
  open os use {World}
  open threads use {
    attr_getstacksize, stack_min, priority_max, priority_min, attr_init, pthread_create,
    pthread_join, epoll_create, eventfd,
  }

  -- `ui_stack_tmp`, with `none` where the function returns -1.
  unfoldable pub stack_tmp : Attr → ℕ → Option ℕ
  stack_tmp st_attr ui_stack_size =
      if ltb 0 ui_stack_size && ltb ui_stack_size stack_min
      then some stack_min
      else if ui_stack_size == 0
      then attr_getstacksize st_attr
      else some ui_stack_size

  -- The priority of the attributes, with `none` for a negative argument.
  unfoldable pub priority_tmp : Attr → ℕ → Option ℕ → ℕ
  priority_tmp st_attr policy none = st_attr.priority
  priority_tmp st_attr policy (some i_priority) =
      if ltb (priority_max policy) i_priority
      then priority_max policy
      else if ltb i_priority (priority_min policy)
      then priority_min policy
      else i_priority

  -- The attributes that `pthread_create` gets; `i_policy` is -1 as `none`.
  unfoldable pub thread_attr : Attr → ℕ → Bool → Option ℕ → Option ℕ → Attr
  thread_attr st_attr stack b_detached i_policy i_priority =
      let policy : ℕ = elim i_policy [ none ↦ st_attr.policy | some p ↦ p ] in
      record {
        stack_size = stack;
        policy = policy;
        priority = priority_tmp st_attr policy i_priority;
        detached = if b_detached then true else st_attr.detached;
      }

  -- `ms_pthread_creat`: the thread's id, with `none` for the result -1. `pf_func` may be NULL.
  unfoldable pub ms_pthread_creat :
      Option ℕ → ℕ → Bool → ℕ → Option ℕ → Option ℕ → World → Option ℕ × World
  ms_pthread_creat none para b_detached ui_stack_size i_policy i_priority w = (none, w)
  ms_pthread_creat (some f) para b_detached ui_stack_size i_policy i_priority w =
      let (attr, w') = attr_init w in
      elim attr [
        | none ↦ (none, w')
        | some st_attr ↦ elim (stack_tmp st_attr ui_stack_size) [
          | none ↦ (none, w')
          | some stack ↦
              pthread_create w' (thread_attr st_attr stack b_detached i_policy i_priority) f para
        ]
      ]

  -- With the default arguments.
  unfoldable pub creat_default : ℕ → World → Option ℕ × World
  creat_default f w = ms_pthread_creat (some f) 0 false 0 none none w

  abbrev World' : Type 0
  World' = MsEpoll × Tcp World

  -- The way out of a failure after the descriptors are open: both are closed and forgotten.
  unfoldable pub closed_both : MsEpoll → Tcp World → World → Bool × World'
  closed_both e t w = (
    false,
    (
      record e { mi_epoll_fd = none; mi_exit_event = none },
      record t { world = os.close (os.close w e.mi_epoll_fd) e.mi_exit_event },
    ),
  )

  -- The second thread.
  unfoldable pub start_timeout : MsEpoll → Tcp World → Bool × World'
  start_timeout e t =
      let (tid, w) = creat_default timeout_thread_proc t.world in
      elim tid [
        | none ↦ closed_both (record e { mb_timeout_thread_flag = false }) t w
        | some i ↦ (
          true,
          (
            record e { m_pthread_timeout = i; mb_timeout_thread_flag = true },
            record t { world = w },
          ),
        )
      ]

  -- The first thread, over an empty map of links.
  unfoldable pub start_worker : MsEpoll → Tcp World → Bool × World'
  start_worker e t =
      let (tid, w) = creat_default worker_thread t.world in
      elim tid [
        | none ↦ closed_both e t w
        | some i ↦ start_timeout (record e { m_pthread_id = i }) (record t { world = w })
      ]

  -- The event that ends the worker, EPOLLIN, with its descriptor as the data.
  unfoldable pub register_exit : MsEpoll → Tcp World → ℕ → Bool × World'
  register_exit e t i_fd =
      let (ok, w) = os.epoll_add t.world (some i_fd) 1 i_fd in
      if ok
      then start_worker e (record t { links = []; send_flag = false; world = w })
      else closed_both e t w

  unfoldable pub open_event : MsEpoll → Tcp World → Bool × World'
  open_event e t =
      let (fd, w) = eventfd t.world in
      elim fd [
        | none ↦ (
          false,
          (
            record e { mi_epoll_fd = none; mi_exit_event = none },
            record t { world = os.close w e.mi_epoll_fd },
          ),
        )
        | some i ↦ register_exit (record e { mi_exit_event = some i }) (record t { world = w }) i
      ]

  -- `MsEpoll::init`
  unfoldable pub init : MsEpoll → Tcp World → Bool × World'
  init e t =
      let (fd, w) = epoll_create t.world in
      elim e.mi_epoll_fd [
        | some _ ↦ (false, (e, t))
        | none ↦ elim fd [
          | none ↦ (false, (e, record t { world = w }))
          | some i ↦ open_event (record e { mi_epoll_fd = some i }) (record t { world = w })
        ]
      ]

  unfoldable pub joined : ℕ → World → World
  joined id w = if id == 0 then w else pthread_join w id

  -- `MsEpoll::end`: the exit event, the two joins, the descriptors, and the links.
  unfoldable pub end : MsEpoll → Tcp World → World'
  end e t =
      let w = (os.write t.world e.mi_exit_event (1 ∷ 0 ∷ 0 ∷ 0 ∷ 0 ∷ 0 ∷ 0 ∷ 0 ∷ [])).1 in
      let w' = joined e.m_pthread_timeout (joined e.m_pthread_id w) in
      let w'' = os.close (os.close w' e.mi_exit_event) e.mi_epoll_fd in
      (new_epoll, free_all_link_map os (record t { world = w'' }))
