-- ===== src/Tcp/Table.antt =====
-- The static members of MsTcpLink: the map of links, its operations, and what removes a link.
pub mod Removal
pub mod Handles
use net_lib_wrapper.Prelude.{
  ℕ, suc, ◌+◌, ◌-◌, ◌%◌, Bool, true, false, not, ◌&&◌, Option, none, some, List, [], ◌∷◌, ◌++◌, ltb,
  if◌then◌else◌,
}
use net_lib_wrapper.Prelude.Assoc
use net_lib_wrapper.Os.{Os, Fd, Address}
use net_lib_wrapper.Epoll.Defs.{del_epoll_read}
use net_lib_wrapper.Tcp.Link.{Link, LinkType, null, listen}

-- STATUS_RECV_BEGIN, STATUS_RECV_MIDDLE, STATUS_RECV_END.
pub data RecvStatus : Type 0 where
  begin middle finish : RecvStatus

-- A call of the user's callback, by `TcpEvent_S`, `TcpAcceptedParam_S` and `TcpRecvDataParam_S`.
-- `received` has the status, the buffer and `ui_size`.
pub data Event : Type 0 where
  created closed connected disconnected : ℕ → Event
  accepted : ℕ → ℕ → Event
  received : ℕ → RecvStatus → List ℕ → ℕ → Event

-- `m_maplink`, `mb_send_flag`, the counter of `add_tcp_link`, and the callbacks made, oldest first.
pub record Tcp (W : Type 0) : Type 0 where
  pub world : W
  pub links : List (ℕ × Link)
  pub i_link : ℕ
  pub send_flag : Bool
  pub events : List Event

-- `ui_check_alive_timeout`
abbrev pub check_alive_timeout : ℕ
check_alive_timeout = 300

-- `find_link`
unfoldable pub find_link : {W : Type 0} → Tcp W → ℕ → Option Link
find_link t h_link = Assoc.find h_link t.links

-- A write to the members of a link that is reached through a counted pointer.
unfoldable pub store : {W : Type 0} → Tcp W → Link → Tcp W
store t l = record t { links = Assoc.modify l.mh_link (λ _. l) t.links }

-- `add_tcp_link` with the `set_link` that each caller makes next. `HTCPLINK` has 32 bits; the signed
-- counter must not reach 2 ^ 31.
unfoldable pub add_tcp_link : {W : Type 0} → Tcp W → Link → ℕ × Tcp W
add_tcp_link t l =
    let i = t.i_link + 1 in
    let h_link = i % 0x3ffffffff in
    (
      h_link,
      record t { links = Assoc.insert h_link (record l { mh_link = h_link }) t.links; i_link = i },
    )

unfoldable pub send_event : {W : Type 0} → Tcp W → Event → Tcp W
send_event t e = record t { events = t.events ++ (e ∷ []) }

-- `is_alive`, which may set the time back: the result and the link.
unfoldable pub is_alive : ℕ → Link → Bool × Link
is_alive st_time l =
    if l.need_check_alive
    then if ltb st_time l.last_alive_time
      then (true, record l { last_alive_time = st_time })
      else (ltb (st_time - l.last_alive_time) check_alive_timeout, l)
    else (true, l)

unfoldable pub is_listen : LinkType → Bool
is_listen listen = true
is_listen _ = false

-- The loop of `check_link_timeout` over the map: the links to close, and the map.
unfoldable pub timed_out : ℕ → List (ℕ × Link) → List Link × List (ℕ × Link)
timed_out now [] = ([], [])
timed_out now ((h, l) ∷ m) =
    let (alive, l') = is_alive now l in
    let (dead, m') = timed_out now m in
    (if not alive && not (is_listen l'.link_type) then l' ∷ dead else dead, (h, l') ∷ m')

abbrev pub link_list : List (ℕ × Link) → List Link
link_list [] = []
link_list ((h, l) ∷ m) = l ∷ link_list m

module _ (os : Os) where
  -- The constructor.
  unfoldable pub new_link : os.World → Link
  new_link w = record {
    mi_socket = none;
    mh_link = 0;
    local_address = record { ip = 0; port = 0 };
    remote_address = record { ip = 0; port = 0 };
    link_type = null;
    last_alive_time = os.time w;
    need_check_alive = false;
    send_buff_list = [];
  }

  -- `del_link`: the socket leaves the epoll set, then the link leaves the map.
  unfoldable pub del_link : Tcp os.World → ℕ → Bool × Tcp os.World
  unfolding find_link del_epoll_read
  del_link t h_link = elim (find_link t h_link) [
    | none ↦ (false, t)
    | some l ↦
        let (_, w) = del_epoll_read os t.world l.mi_socket in
        (true, record t { world = w; links = Assoc.erase h_link t.links })
  ]

  -- `link_destroy`: the link's own members afterwards, and the state.
  unfoldable pub link_destroy : Tcp os.World → Link → Link × Tcp os.World
  unfolding del_link send_event
  link_destroy t l =
      let t' = (del_link t l.mh_link).1 in
      let l' = record l { send_buff_list = [] } in
      elim l.mi_socket [
        | none ↦ (l', t')
        | some fd ↦ (
          record l' { mi_socket = none },
          send_event (record t' { world = os.shutdown t'.world (some fd) }) (closed l.mh_link),
        )
      ]

  -- A loop of `link_destroy` over a list of links.
  unfoldable pub destroy_all : List Link → Tcp os.World → Tcp os.World
  unfolding link_destroy
  destroy_all [] t = t
  destroy_all (l ∷ ls) t = destroy_all ls (link_destroy t l).1

  -- `free_all_link_map`
  unfoldable pub free_all_link_map : Tcp os.World → Tcp os.World
  unfolding destroy_all
  free_all_link_map t = destroy_all (link_list t.links) t

  unfoldable pub check_link_timeout : Tcp os.World → Tcp os.World
  unfolding timed_out destroy_all
  check_link_timeout t =
      let (dead, m) = timed_out (os.time t.world) t.links in
      destroy_all dead (record t { links = m })
