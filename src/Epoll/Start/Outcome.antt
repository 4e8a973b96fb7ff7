-- ===== src/Epoll/Start/Outcome.antt =====
-- How `init` and `end` leave the descriptors and the threads.
use net_lib_wrapper.Prelude.{ℕ, ◌≡◌, ◌⊎◌, Bool, true, false, none, some, []}
use net_lib_wrapper.Os.{Os, Fd}
use net_lib_wrapper.Tcp.Table.{Tcp}
use net_lib_wrapper.Epoll.Start.{MsEpoll}

abbrev IsOpen : Fd → Type 0
IsOpen fd = (i : ℕ) × (fd ≡ some i)

-- Started, with both descriptors open, over no links; or failed, with neither.
abbrev pub Outcome : {W : Type 0} → Bool × (MsEpoll × Tcp W) → Type 0
Outcome (ok, (e, t)) =
    ((ok ≡ true)
      × (IsOpen e.mi_epoll_fd)
      × (IsOpen e.mi_exit_event)
      × (e.mb_timeout_thread_flag ≡ true)
      × (t.links ≡ [])
      × (t.send_flag ≡ false))
    ⊎ ((ok ≡ false) × (e.mi_epoll_fd ≡ none) × (e.mi_exit_event ≡ none))
