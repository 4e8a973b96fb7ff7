-- ===== src/Epoll/Worker.antt =====
-- MsEpoll::worker_thread: one batch of events.
pub mod Laws
use net_lib_wrapper.Prelude.{
  ℕ, Bool, true, false, ◌||◌, Option, none, some, List, [], ◌∷◌, ◌==◌, if◌then◌else◌,
}
use net_lib_wrapper.Os.{Os, Fd}
use net_lib_wrapper.Epoll.Defs.{
  is_disconnected, is_readable, is_writeable, fd_bits, data_link, data_fd,
}
use net_lib_wrapper.Tcp.Link.{Link, LinkType, null, listen, connect, accept, connected, error}
use net_lib_wrapper.Tcp.Table.{Tcp, disconnected, send_event, find_link, store, del_link}
use net_lib_wrapper.Tcp.Output.{do_send_buff}
use net_lib_wrapper.Tcp.Recv.{on_event_read}
use net_lib_wrapper.Tcp.Accept.{on_event_accept, on_event_connected}

-- `epoll_event`
pub record EpollEvent : Type 0 where
  pub events : ℕ
  pub data64 : ℕ

-- How the body of the loop over the events ends: it goes on, or the thread returns.
pub data Handled (W : Type 0) : Type 0 where
  continues returns : Tcp W → Handled W

module _ (os : Os) where
  open os use {World}

  -- The peer has gone: the user is told, the buffers and the link are dropped.
  unfoldable pub on_disconnected : Tcp World → ℕ → Link → Tcp World
  unfolding send_event store del_link
  on_disconnected t h_link l =
      let told = send_event t (disconnected l.mh_link) in
      (del_link os (store told (record l { send_buff_list = [] })) h_link).1

  -- The tests on the link's type.
  unfoldable pub on_ready : ℕ → LinkType → ℕ → Tcp World → Link → Option (Tcp World)
  unfolding is_readable is_writeable
  on_ready fuel listen ui_event t l =
      if is_readable ui_event then on_event_accept os fuel t l else some t
  on_ready fuel connect ui_event t l =
      if is_readable ui_event || is_writeable ui_event
      then some (on_event_connected os t l)
      else some t
  on_ready fuel connected ui_event t l =
      if is_readable ui_event
      then elim (on_event_read os fuel t l) [ none ↦ none | some r ↦ some r.0 ]
      else some t
  on_ready fuel accept ui_event t l =
      if is_readable ui_event
      then elim (on_event_read os fuel t l) [ none ↦ none | some r ↦ some r.0 ]
      else some t
  on_ready fuel null ui_event t l = some t
  on_ready fuel error ui_event t l = some t

  -- An event of a link; `none` is fuel that ran out.
  unfoldable pub on_link_event : ℕ → Tcp World → EpollEvent → Option (Tcp World)
  unfolding on_ready on_disconnected find_link data_link is_disconnected
  on_link_event fuel t e =
      let h_link = data_link e.data64 in
      elim (find_link t h_link) [
        | none ↦ some t
        | some l ↦
            if is_disconnected e.events
            then some (on_disconnected t h_link l)
            else on_ready fuel l.link_type e.events t l
      ]

  -- The loop over a batch of events: whether the thread returns, and the state.
  unfoldable pub on_events : ℕ → Fd → List EpollEvent → Tcp World → Option (Handled World)
  unfolding on_link_event data_fd fd_bits
  on_events fuel exit_fd [] t = some (continues t)
  on_events fuel exit_fd (e ∷ es) t = elim (data_fd e.data64 == fd_bits exit_fd) [
    | true ↦ some (returns t)
    | false ↦ elim (on_link_event fuel t e) [ none ↦ none | some t' ↦ on_events fuel exit_fd es t' ]
  ]

  -- A round of `worker_thread`. `none` as the batch is an `epoll_wait` that failed.
  unfoldable pub worker_round :
      ℕ → Fd → Option (List EpollEvent) → Tcp World → Option (Handled World)
  unfolding on_events do_send_buff
  worker_round fuel exit_fd none t = elim (do_send_buff os fuel t) [
    | none ↦ none
    | some r ↦ some (continues r.0)
  ]
  worker_round fuel exit_fd (some events) t = elim (on_events fuel exit_fd events t) [
    | none ↦ none
    | some (returns t') ↦ some (returns t')
    | some (continues t') ↦ elim (do_send_buff os fuel t') [
      | none ↦ none
      | some r ↦ some (continues r.0)
    ]
  ]
