-- ===== src/Tcp/Accept.antt =====
-- MsTcpLink::accept, on_event_accept and on_event_connected.
use net_lib_wrapper.Prelude.{ℕ, true, Option, none, some, Round, leave, again, iterate}
use net_lib_wrapper.Os.{Os, Fd, Address}
use net_lib_wrapper.Epoll.Defs.{attach_to_epoll}
use net_lib_wrapper.Tcp.Link.{Link, accept, connected}
use net_lib_wrapper.Tcp.Table.{Tcp, accepted, send_event, add_tcp_link, new_link, store}

module _ (os : Os) where
  open os use {World}

  -- `accept` once the kernel has given a socket: a failing `getsockname` closes it.
  unfoldable pub take_socket : World → ℕ → Address → Option Address → Option Link × World
  unfolding new_link
  take_socket w fd peer none = (none, os.close w (some fd))
  take_socket w fd peer (some name) = (
    some (record (new_link os w) {
      mi_socket = some fd;
      local_address = name;
      remote_address = peer;
      link_type = accept;
      need_check_alive = true;
    }),
    os.set_nonblock w (some fd),
  )

  -- `accept`: the new link's members, or `none` for false.
  unfoldable pub accept_link : World → Fd → Option Link × World
  unfolding take_socket
  accept_link w listen_fd =
      let r = os.accept w listen_fd in
      elim r.0 [
        | none ↦ (none, r.1)
        | some c ↦ let name = os.getsockname r.1 (some c.0) in take_socket name.1 c.0 c.1 name.0
      ]

  -- The rest of a round of `on_event_accept` for a link that was accepted.
  unfoldable pub enter_link : ℕ → ℕ → Tcp World → Link → Tcp World
  unfolding add_tcp_link send_event attach_to_epoll
  enter_link st_time h_listen t l =
      let added = add_tcp_link t (record l { last_alive_time = st_time }) in
      let t' = send_event added.1 (accepted h_listen added.0) in
      record t' { world = (attach_to_epoll os t'.world l.mi_socket added.0 true).1 }

  -- The body of `while( true )`.
  unfoldable pub accept_once : ℕ → Link → Tcp World → Round (Tcp World)
  unfolding accept_link enter_link
  accept_once st_time listener t =
      let r = accept_link t.world listener.mi_socket in
      let t' : Tcp World = record t { world = r.1 } in
      elim r.0 [ none ↦ leave t' | some l ↦ again (enter_link st_time listener.mh_link t' l) ]

  unfoldable pub on_event_accept : ℕ → Tcp World → Link → Option (Tcp World)
  unfolding accept_once store
  on_event_accept fuel t listener =
      let st_time = os.time t.world in
      elim (iterate fuel (accept_once st_time listener) t) [
        | none ↦ none
        | some t' ↦ some (store t' (record listener { last_alive_time = st_time }))
      ]

  unfoldable pub on_event_connected : Tcp World → Link → Tcp World
  unfolding store
  on_event_connected t l =
      store t (record l { link_type = connected; last_alive_time = os.time t.world })
