-- ===== src/Udp/Api.antt =====
-- ms-epoll-udp.cpp, MsUdpLink::link_create, and a round of MsUdpEpoll::worker_thread.
use net_lib_wrapper.Prelude.{
  ℕ, Bool, true, false, Option, none, some, List, [], ◌∷◌, ◌==◌, if◌then◌else◌,
}
use net_lib_wrapper.Os.{Os, Fd, Address}
use net_lib_wrapper.Epoll.Defs.{is_readable, fd_bits, data_link, data_fd, attach_to_epoll}
use net_lib_wrapper.Epoll.Worker.{EpollEvent}
use net_lib_wrapper.Tcp.Setup.{local_ip, updated}
use net_lib_wrapper.Udp.Link.{
  UdpLink, Udp, created, send_event, find_link, add_udp_link, new_udp_link, store, link_destroy,
}
use net_lib_wrapper.Udp.Send.{SendResult, link_send_to, do_send_buff, on_event_read}

-- What `link_create` returns: its result, the link's members, and the state.
pub record Created (W : Type 0) : Type 0 where
  pub ok : Bool
  pub link : UdpLink
  pub udp : Udp W

-- INVALID_HUDPLINK
abbrev pub invalid_link : ℕ
invalid_link = 0xffffffff

module _ (os : Os) (allow_broadcast : os.World → Fd → Bool) where
  open os use {World}

  -- `link_create` once there is a socket: `allow_broadcast` is whether setsockopt grants
  -- SO_BROADCAST, which UDP_FLAG_BROADCAST, 2, asks for.
  unfoldable pub bind_link : Udp World → UdpLink → Fd → ℕ → Option (List ℕ) → ℕ → Created World
  unfolding local_ip updated
  bind_link t l fd i_flag p_local_addr us_local_port =
      let asked : Address = record {
        ip = local_ip os t.world p_local_addr;
        port = us_local_port;
      } in
      let l' : UdpLink = record l {
        mi_socket = fd;
        local_address = asked;
        mi_create_flag = i_flag;
      } in
      let closes : World → Created World =
        λ w. record { ok = false; link = l'; udp = record t { world = os.close w fd } } in
      let (bound, w) = os.bind t.world fd asked in
      let (name, w') = os.getsockname w fd in
      if i_flag == 2
      then (if allow_broadcast t.world fd
          then (if bound
              then record {
                ok = true;
                link = record l' { local_address = updated name asked };
                udp = record t { world = w' };
              }
              else closes w)
          else closes t.world)
      else if bound
      then record {
        ok = true;
        link = record l' { local_address = updated name asked };
        udp = record t { world = w' };
      }
      else closes w

  unfoldable pub link_create : Udp World → UdpLink → ℕ → Option (List ℕ) → ℕ → Created World
  unfolding bind_link
  link_create t l i_flag p_local_addr us_local_port =
      let (fd, w) = os.socket t.world in
      let t' : Udp World = record t { world = w } in
      elim fd [
        | none ↦ record { ok = false; link = record l { mi_socket = none }; udp = t' }
        | some n ↦ bind_link t' l (some n) i_flag p_local_addr us_local_port
      ]

  unfoldable pub ms_udp_create : Udp World → ℕ → Option (List ℕ) → ℕ → ℕ × Udp World
  unfolding link_create add_udp_link send_event attach_to_epoll
  ms_udp_create t i_flag p_local_addr us_local_port =
      let c = link_create t new_udp_link i_flag p_local_addr us_local_port in
      let added = add_udp_link c.udp c.link in
      let (_, w) = attach_to_epoll os added.1.world c.link.mi_socket added.0 true in
      if c.ok
      then (added.0, send_event (record added.1 { world = w }) (created added.0))
      else (invalid_link, c.udp)

module _ (os : Os) where
  open os use {World}

  unfoldable pub ms_udp_destroy : Udp World → ℕ → Bool × Udp World
  unfolding find_link link_destroy
  ms_udp_destroy t h_link = elim (find_link t h_link) [
    | none ↦ (false, t)
    | some l ↦ (true, (link_destroy os t l).1)
  ]

  unfoldable pub sent_state : Udp World → SendResult World → Udp World
  unfolding store
  sent_state t r = store (record t { send_flag = r.send_flag; world = r.world }) r.link

  unfoldable pub ms_udp_send_to : Udp World → ℕ → List ℕ → ℕ → ℕ → Option ℕ → ℕ → Bool × Udp World
  unfolding find_link link_send_to sent_state
  ms_udp_send_to t h_link p_data ui_size i_flag p_ip us_port = elim (find_link t h_link) [
    | none ↦ (false, t)
    | some l ↦
        let r = link_send_to os l t.send_flag t.world p_data ui_size i_flag p_ip us_port in
        (r.ok, sent_state t r)
  ]

  -- The loop over a batch of events: whether the thread returns, and the state.
  unfoldable pub on_events : Fd → List EpollEvent → Udp World → Bool × Udp World
  unfolding is_readable find_link on_event_read data_fd data_link fd_bits
  on_events exit_fd [] t = (false, t)
  on_events exit_fd (e ∷ es) t =
      let t' : Udp World =
        if is_readable e.events
        then elim (find_link t (data_link e.data64)) [ none ↦ t | some l ↦ on_event_read os t l ]
        else t in
      let rest = on_events exit_fd es t' in
      if data_fd e.data64 == fd_bits exit_fd then (true, t) else rest

  -- A round of `worker_thread`. `none` as the batch is an `epoll_wait` that failed.
  unfoldable pub worker_round : Fd → Option (List EpollEvent) → Udp World → Bool × Udp World
  unfolding on_events do_send_buff
  worker_round exit_fd none t = (false, (do_send_buff os t).0)
  worker_round exit_fd (some events) t =
      let (returns, t') = on_events exit_fd events t in
      if returns then (true, t') else (false, (do_send_buff os t').0)
