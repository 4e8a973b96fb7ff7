-- ===== src/Udp/Link.antt =====
-- udp-link.h: the data of a datagram link, the map of links, and what adds and removes them.
use net_lib_wrapper.Prelude.{
  ℕ, ◌+◌, ◌%◌, Bool, true, false, Option, none, some, List, [], ◌∷◌, ◌++◌,
}
use net_lib_wrapper.Prelude.Assoc
use net_lib_wrapper.Os.{Os, Fd, Address}
use net_lib_wrapper.Epoll.Defs.{del_epoll_read}

-- `send_buff_s`
pub record Datagram : Type 0 where
  pub p_data : Option (List ℕ)
  pub ui_size : ℕ
  pub dst_addr : Address

-- MsUdpLink's members; -1 as `mi_create_flag` is 0, which no flag is.
pub record UdpLink : Type 0 where
  pub mi_socket : Fd
  pub mh_link : ℕ
  pub mi_create_flag : ℕ
  pub local_address : Address
  pub remote_address : Address
  pub send_buff_list : List Datagram

-- A call of the user's callback, by `UdpEvent_S` and `UdpRecvDataParam_S`.
pub data UdpEvent : Type 0 where
  created closed : ℕ → UdpEvent
  received_from : ℕ → List ℕ → Address → UdpEvent

-- `m_maplink`, `mb_send_flag`, the counter of `add_tcp_link`, and the callbacks made.
pub record Udp (W : Type 0) : Type 0 where
  pub world : W
  pub links : List (ℕ × UdpLink)
  pub i_link : ℕ
  pub send_flag : Bool
  pub events : List UdpEvent

unfoldable pub find_link : {W : Type 0} → Udp W → ℕ → Option UdpLink
find_link t h_link = Assoc.find h_link t.links

-- A write to the members of a link that is reached through a counted pointer.
unfoldable pub store : {W : Type 0} → Udp W → UdpLink → Udp W
store t l = record t { links = Assoc.modify l.mh_link (λ _. l) t.links }

-- `add_tcp_link` with the `set_link` that its caller makes next.
unfoldable pub add_udp_link : {W : Type 0} → Udp W → UdpLink → ℕ × Udp W
add_udp_link t l =
    let i = t.i_link + 1 in
    let h_link = i % 0x3ffffffff in
    (
      h_link,
      record t { links = Assoc.insert h_link (record l { mh_link = h_link }) t.links; i_link = i },
    )

unfoldable pub send_event : {W : Type 0} → Udp W → UdpEvent → Udp W
send_event t e = record t { events = t.events ++ (e ∷ []) }

-- The constructor.
abbrev pub no_address : Address
no_address = record { ip = 0; port = 0 }

abbrev pub new_udp_link : UdpLink
new_udp_link = record {
  mi_socket = none;
  mh_link = 0;
  mi_create_flag = 0;
  local_address = no_address;
  remote_address = no_address;
  send_buff_list = [];
}

abbrev pub link_list : List (ℕ × UdpLink) → List UdpLink
link_list [] = []
link_list ((h, l) ∷ m) = l ∷ link_list m

module _ (os : Os) where
  unfoldable pub del_link : Udp os.World → ℕ → Bool × Udp os.World
  unfolding find_link del_epoll_read
  del_link t h_link = elim (find_link t h_link) [
    | none ↦ (false, t)
    | some l ↦
        let (_, w) = del_epoll_read os t.world l.mi_socket in
        (true, record t { world = w; links = Assoc.erase h_link t.links })
  ]

  -- `link_destroy`: the link's own members afterwards, and the state.
  unfoldable pub link_destroy : Udp os.World → UdpLink → UdpLink × Udp os.World
  unfolding del_link send_event
  link_destroy t l =
      let t' = (del_link t l.mh_link).1 in
      let l' = record l { send_buff_list = [] } in
      elim l.mi_socket [
        | none ↦ (l', t')
        | some fd ↦ (
          record l' { mi_socket = none },
          send_event (record t' { world = os.shutdown t'.world (some fd) }) (closed l.mh_link),
        )
      ]

  unfoldable pub destroy_all : List UdpLink → Udp os.World → Udp os.World
  unfolding link_destroy
  destroy_all [] t = t
  destroy_all (l ∷ ls) t = destroy_all ls (link_destroy t l).1

  unfoldable pub free_all_link_map : Udp os.World → Udp os.World
  unfolding destroy_all
  free_all_link_map t = destroy_all (link_list t.links) t
