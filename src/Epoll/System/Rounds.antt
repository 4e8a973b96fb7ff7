-- ===== src/Epoll/System/Rounds.antt =====
-- A round of the worker keeps the map of links sound.
use net_lib_wrapper.Prelude.{
  ℕ, refl, Option, none, some, List, [], ◌∷◌, ◌||◌, ◌==◌, Bool-cases, Option-cases, inl, inr,
  Ensures,
}
use net_lib_wrapper.Os.{Os, Fd, WriteLaws}
use net_lib_wrapper.Tcp.Link.{Link, LinkType, null, listen, connect, accept, connected, error}
use net_lib_wrapper.Tcp.Table.{Tcp, find_link, disconnected, send_event, store}
use net_lib_wrapper.Tcp.Output.{do_send_buff}
use net_lib_wrapper.Tcp.Recv.{on_event_read}
use net_lib_wrapper.Epoll.Defs.{
  is_disconnected, is_readable, is_writeable, data_fd, fd_bits, data_link,
}
use net_lib_wrapper.Epoll.Worker.{
  EpollEvent, continues, returns, on_disconnected, on_ready, on_link_event, on_events, worker_round,
}
use net_lib_wrapper.Epoll.System.{left}
use net_lib_wrapper.Tcp.Invariant.{IsKept, IsSane}
use net_lib_wrapper.Tcp.Invariant.Table.{
  find_link-IsKept, IsKept-drop, store-IsSane, del_link-IsSane,
}
use net_lib_wrapper.Tcp.Invariant.Events.{
  on_event_accept-IsSane, on_event_connected-IsSane, on_event_read-IsSane,
}
use net_lib_wrapper.Tcp.Invariant.Flushing.{do_send_buff-IsSane}

module _ (os : Os) where
  on_disconnected-IsSane :
      {dead : ℕ} (t : Tcp os.World) (h_link : ℕ) (l : Link)
      → IsKept dead t.send_flag t.i_link h_link l
      → IsSane dead t
      → IsSane dead (on_disconnected os t h_link l)
  unfolding on_disconnected
  on_disconnected-IsSane {dead} t h_link l k s =
      let t' = send_event t (disconnected l.mh_link) in
      let l' : Link = record l { send_buff_list = [] } in
      let k' : IsKept dead t.send_flag t.i_link h_link l' =
        IsKept-drop t.send_flag t.i_link h_link l l' refl refl k in
      del_link-IsSane os (store t' l') h_link (store-IsSane t' h_link l' k' s)

  read-IsSane :
      {dead : ℕ} (fuel h_link : ℕ) (t : Tcp os.World) (l : Link)
      → IsKept dead t.send_flag t.i_link h_link l
      → IsSane dead t
      → Ensures (IsSane dead) (elim (on_event_read os fuel t l) [ none ↦ none | some r ↦ some r.0 ])
  read-IsSane fuel h_link t l k s = elim (Option-cases (on_event_read os fuel t l)) [
    | inl out ↦ rw out tt
    | inr (r, there) ↦ rw there (rw there at (on_event_read-IsSane os fuel h_link t l k s))
  ]

  on_ready-IsSane :
      {dead : ℕ} (fuel : ℕ) (kind : LinkType) (ui_event h_link : ℕ) (t : Tcp os.World) (l : Link)
      → IsKept dead t.send_flag t.i_link h_link l
      → IsSane dead t
      → Ensures (IsSane dead) (on_ready os fuel kind ui_event t l)
  unfolding on_ready
  on_ready-IsSane fuel listen ui_event h_link t l k s = elim (Bool-cases (is_readable ui_event)) [
    | inl ready ↦ rw ready (on_event_accept-IsSane os fuel h_link t l k s)
    | inr idle ↦ rw idle s
  ]
  on_ready-IsSane fuel connect ui_event h_link t l k s =
      elim (Bool-cases (is_readable ui_event || is_writeable ui_event)) [
        | inl ready ↦ rw ready (on_event_connected-IsSane os h_link t l k s)
        | inr idle ↦ rw idle s
      ]
  on_ready-IsSane fuel connected ui_event h_link t l k s =
      elim (Bool-cases (is_readable ui_event)) [
        | inl ready ↦ rw ready (read-IsSane fuel h_link t l k s)
        | inr idle ↦ rw idle s
      ]
  on_ready-IsSane fuel accept ui_event h_link t l k s = elim (Bool-cases (is_readable ui_event)) [
    | inl ready ↦ rw ready (read-IsSane fuel h_link t l k s)
    | inr idle ↦ rw idle s
  ]
  on_ready-IsSane fuel null ui_event h_link t l k s = s
  on_ready-IsSane fuel error ui_event h_link t l k s = s

  on_link_event-IsSane :
      {dead : ℕ} (fuel : ℕ) (t : Tcp os.World) (e : EpollEvent)
      → IsSane dead t
      → Ensures (IsSane dead) (on_link_event os fuel t e)
  unfolding on_link_event
  on_link_event-IsSane {dead} fuel t e s =
      let h_link = data_link e.data64 in
      elim (Option-cases (find_link t h_link)) [
        | inl missing ↦ rw (missing, on_link_event) s
        | inr (l, there) ↦
            let k : IsKept dead t.send_flag t.i_link h_link l =
              find_link-IsKept t h_link l s there in
            elim (Bool-cases (is_disconnected e.events)) [
              | inl gone ↦ rw (there, on_link_event, gone) (on_disconnected-IsSane t h_link l k s)
              | inr open' ↦
                  rw (there, on_link_event, open')
                    (on_ready-IsSane fuel l.link_type e.events h_link t l k s)
            ]
      ]

  on_events-IsSane :
      {dead : ℕ} (fuel : ℕ) (exit_fd : Fd) (es : List EpollEvent) (t : Tcp os.World)
      → IsSane dead t
      → Ensures (λ r. IsSane dead (left r)) (on_events os fuel exit_fd es t)
  unfolding on_events
  on_events-IsSane fuel exit_fd [] t s = s
  on_events-IsSane fuel exit_fd (e ∷ es) t s =
      elim (Bool-cases (data_fd e.data64 == fd_bits exit_fd)) [
        | inl exits ↦ rw (exits, on_events) s
        | inr goes ↦ elim (Option-cases (on_link_event os fuel t e)) [
          | inl out ↦ rw (goes, on_events, out) tt
          | inr (t', there) ↦
              rw (goes, on_events, there)
                (on_events-IsSane fuel exit_fd es t'
                  (rw there at (on_link_event-IsSane fuel t e s)))
        ]
      ]

  flushed-IsSane :
      {dead : ℕ} (fuel : ℕ) (t : Tcp os.World)
      → WriteLaws os
      → IsSane dead t
      → Ensures
          (λ r. IsSane dead (left r))
          (elim (do_send_buff os fuel t) [ none ↦ none | some r ↦ some (continues r.0) ])
  flushed-IsSane fuel t laws s = elim (Option-cases (do_send_buff os fuel t)) [
    | inl out ↦ rw out tt
    | inr (r, there) ↦ rw there (rw there at (do_send_buff-IsSane os fuel t laws s))
  ]

  pub worker_round-IsSane :
      {dead : ℕ} (fuel : ℕ) (exit_fd : Fd) (batch : Option (List EpollEvent)) (t : Tcp os.World)
      → WriteLaws os
      → IsSane dead t
      → Ensures (λ r. IsSane dead (left r)) (worker_round os fuel exit_fd batch t)
  unfolding worker_round
  worker_round-IsSane fuel exit_fd none t laws s = flushed-IsSane fuel t laws s
  worker_round-IsSane fuel exit_fd (some es) t laws s =
      elim (Option-cases (on_events os fuel exit_fd es t)) [
        | inl out ↦ rw (out, worker_round) tt
        | inr (returns t', there) ↦
            rw (there, worker_round) (rw there at (on_events-IsSane fuel exit_fd es t s))
        | inr (continues t', there) ↦
            rw (there, worker_round)
              (flushed-IsSane fuel t' laws (rw there at (on_events-IsSane fuel exit_fd es t s)))
      ]
