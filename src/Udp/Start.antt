-- ===== src/Udp/Start.antt =====
-- udp-ms-epoll.cpp: `init` and `end` of MsUdpEpoll.
use net_lib_wrapper.Prelude.{ℕ, Bool, true, false, none, some, [], ◌∷◌, ◌≡◌, arith, if◌then◌else◌}
use net_lib_wrapper.Os.{Os, Fd}
use net_lib_wrapper.Epoll.Start.{Threads, creat_default, joined}
use net_lib_wrapper.Udp.Link.{Udp, free_all_link_map}

-- The members of MsUdpEpoll. A thread id 0 is none.
pub record MsUdpEpoll : Type 0 where
  pub mi_epoll_fd : Fd
  pub mi_exit_event : Fd
  pub m_pthread_id : ℕ

unfoldable pub new_epoll : MsUdpEpoll
new_epoll = record { mi_epoll_fd = none; mi_exit_event = none; m_pthread_id = 0 }

-- `MsUdpEpoll::worker_thread`
abbrev pub worker_thread : ℕ
worker_thread = 4

module _ (os : Os) (threads : Threads os) where
  open os use {World}

  -- The way out of a failure after the descriptors are open.
  unfoldable pub closed_both : MsUdpEpoll → Udp World → World → Bool × (MsUdpEpoll × Udp World)
  closed_both e t w = (
    false,
    (
      record e { mi_epoll_fd = none; mi_exit_event = none },
      record t { world = os.close (os.close w e.mi_epoll_fd) e.mi_exit_event },
    ),
  )

  unfoldable pub start_worker : MsUdpEpoll → Udp World → Bool × (MsUdpEpoll × Udp World)
  start_worker e t =
      let (tid, w) = creat_default os threads worker_thread t.world in
      elim tid [
        | none ↦ closed_both e t w
        | some i ↦ (true, (record e { m_pthread_id = i }, record t { world = w }))
      ]

  unfoldable pub register_exit : MsUdpEpoll → Udp World → ℕ → Bool × (MsUdpEpoll × Udp World)
  register_exit e t i_fd =
      let (ok, w) = os.epoll_add t.world (some i_fd) 1 i_fd in
      if ok
      then start_worker e (record t { links = []; send_flag = false; world = w })
      else closed_both e t w

  unfoldable pub open_event : MsUdpEpoll → Udp World → Bool × (MsUdpEpoll × Udp World)
  open_event e t =
      let (fd, w) = threads.eventfd t.world in
      elim fd [
        | none ↦ (
          false,
          (
            record e { mi_epoll_fd = none; mi_exit_event = none },
            record t { world = os.close w e.mi_epoll_fd },
          ),
        )
        | some i ↦ register_exit (record e { mi_exit_event = some i }) (record t { world = w }) i
      ]

  -- `MsUdpEpoll::init`
  unfoldable pub init : MsUdpEpoll → Udp World → Bool × (MsUdpEpoll × Udp World)
  init e t =
      let (fd, w) = threads.epoll_create t.world in
      elim e.mi_epoll_fd [
        | some _ ↦ (false, (e, t))
        | none ↦ elim fd [
          | none ↦ (false, (e, record t { world = w }))
          | some i ↦ open_event (record e { mi_epoll_fd = some i }) (record t { world = w })
        ]
      ]

  -- `MsUdpEpoll::end`
  unfoldable pub end : MsUdpEpoll → Udp World → MsUdpEpoll × Udp World
  end e t =
      let w = (os.write t.world e.mi_exit_event (1 ∷ 0 ∷ 0 ∷ 0 ∷ 0 ∷ 0 ∷ 0 ∷ 0 ∷ [])).1 in
      let w' = joined os threads e.m_pthread_id w in
      let w'' = os.close (os.close w' e.mi_exit_event) e.mi_epoll_fd in
      (new_epoll, free_all_link_map os (record t { world = w'' }))

  -- A failure of `init` of an event loop that is not running leaves both descriptors set back.
  pub init_failed :
      (e : MsUdpEpoll) (t : Udp World)
      → e.mi_epoll_fd ≡ none
      → e.mi_exit_event ≡ none
      → (init e t).0 ≡ false
      → ((init e t).1.0.mi_epoll_fd ≡ none) × ((init e t).1.0.mi_exit_event ≡ none)
  unfolding init open_event register_exit start_worker closed_both
  init_failed e t p x f = ground arith
