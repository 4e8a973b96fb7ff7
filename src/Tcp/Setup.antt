-- ===== src/Tcp/Setup.antt =====
-- get_ip_by_name, MsTcpLink::link_create, link_connect and link_listen.
use net_lib_wrapper.Prelude.{
  ℕ, Bool, true, false, Option, none, some, List, [], ◌∷◌, ◌==◌, if◌then◌else◌,
}
use net_lib_wrapper.Os.{Os, Errno, Reply, Fd, Address, einprogress, done, failed}
use net_lib_wrapper.Tcp.Link.{Link, connect, listen}
use net_lib_wrapper.Tcp.Table.{Tcp, send_event, connected, disconnected}

-- What a call on a link returns: its result, the link's members, and the state.
pub record Called (W : Type 0) : Type 0 where
  pub ok : Bool
  pub link : Link
  pub tcp : Tcp W

unfoldable pub is_einprogress : Errno → Bool
is_einprogress einprogress = true
is_einprogress _ = false

-- `((i_ret == -1) && errno == EINPROGRESS) || i_ret != -1`
unfoldable pub is_under_way : Reply → Bool
unfolding is_einprogress
is_under_way (done k e) = true
is_under_way (failed e) = is_einprogress e

-- The address that `getsockname` writes, if it succeeds.
unfoldable pub updated : Option Address → Address → Address
updated none a = a
updated (some a') a = a'

module _ (os : Os) where
  open os use {World}

  -- An empty name is refused; the system resolves the others. The address is in host order.
  unfoldable pub get_ip_by_name : World → List ℕ → Option ℕ
  get_ip_by_name w [] = none
  get_ip_by_name w (c ∷ cs) = os.resolve w (c ∷ cs)

  -- INADDR_ANY, 0, stands in for a name that is missing or unknown.
  unfoldable pub local_ip : World → Option (List ℕ) → ℕ
  unfolding get_ip_by_name
  local_ip w none = 0
  local_ip w (some name) = elim (get_ip_by_name w name) [ none ↦ 0 | some ip ↦ ip ]

  -- `link_create` once there is a socket.
  unfoldable pub bind_link : Tcp World → Link → Fd → Option (List ℕ) → ℕ → Called World
  unfolding local_ip updated
  bind_link t l fd p_local_addr port =
      let asked : Address = record { ip = local_ip t.world p_local_addr; port = port } in
      let (bound, w) = os.bind t.world fd asked in
      let (name, w') = os.getsockname w fd in
      let l' : Link = record l { mi_socket = fd; local_address = asked } in
      if bound
      then record {
        ok = true;
        link = record l' { local_address = updated name asked };
        tcp = record t { world = w' };
      }
      else record { ok = false; link = l'; tcp = record t { world = os.close w fd } }

  unfoldable pub link_create : Tcp World → Link → Option (List ℕ) → ℕ → Called World
  unfolding bind_link
  link_create t l p_local_addr port =
      let (fd, w) = os.socket t.world in
      let t' : Tcp World = record t { world = w } in
      elim fd [
        | none ↦ record { ok = false; link = record l { mi_socket = none }; tcp = t' }
        | some n ↦ bind_link t' l (some n) p_local_addr port
      ]

  -- `link_connect` once the peer's address is known.
  unfoldable pub connect_to : Tcp World → Link → Address → Called World
  unfolding is_under_way updated send_event
  connect_to t l remote =
      let l1 : Link = record l { link_type = connect } in
      let (reply, w) = os.connect (os.set_nonblock t.world l.mi_socket) l.mi_socket remote in
      let (name, w') = os.getsockname w l.mi_socket in
      let w'' = os.set_nonblock w' l.mi_socket in
      let l2 : Link = record l1 {
        local_address = updated name l1.local_address;
        remote_address = remote;
        last_alive_time = os.time w'';
      } in
      if is_under_way reply
      then record {
        ok = true;
        link = l2;
        tcp = send_event (record t { world = w'' }) (connected l.mh_link);
      }
      else record {
        ok = false;
        link = record l1 { mi_socket = none };
        tcp = send_event (record t { world = os.close w l.mi_socket }) (disconnected l.mh_link);
      }

  unfoldable pub link_connect : Tcp World → Link → Option (List ℕ) → ℕ → Called World
  unfolding connect_to get_ip_by_name
  link_connect t l none port = record { ok = false; link = l; tcp = t }
  link_connect t l (some name) port =
      let fails : Called World = record { ok = false; link = l; tcp = t } in
      let goes : Called World = elim (get_ip_by_name t.world name) [
        | none ↦ fails
        | some ip ↦ connect_to t l (record { ip = ip; port = port })
      ] in
      if port == 0 then fails else goes

  unfoldable pub link_listen : Tcp World → Link → ℕ → Called World
  link_listen t l ui_block =
      let w = os.set_nonblock t.world l.mi_socket in
      let l' : Link = record l { link_type = listen } in
      let (listens, w') = os.listen w l.mi_socket ui_block in
      let t' : Tcp World = record t { world = w' } in
      if ui_block == 0
      then record { ok = false; link = l; tcp = t }
      else if listens
      then record { ok = true; link = record l' { last_alive_time = os.time w' }; tcp = t' }
      else record { ok = false; link = l'; tcp = t' }
