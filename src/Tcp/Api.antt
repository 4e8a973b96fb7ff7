-- ===== src/Tcp/Api.antt =====
-- ms-epoll-tcp.cpp: the functions over handles that users of the library call.
use net_lib_wrapper.Prelude.{ℕ, Bool, true, false, Option, none, some, List, ◌==◌, if◌then◌else◌}
use net_lib_wrapper.Os.{Os, Address}
use net_lib_wrapper.Tcp.Link.{Link}
use net_lib_wrapper.Tcp.Table.{
  Tcp, created, send_event, add_tcp_link, find_link, new_link, store, link_destroy,
}
use net_lib_wrapper.Tcp.Output.{SendResult, link_send}
use net_lib_wrapper.Tcp.Setup.{Called, link_create, link_connect, link_listen}
use net_lib_wrapper.Epoll.Defs.{attach_to_epoll}

-- INVALID_HTCPLINK
abbrev pub invalid_link : ℕ
invalid_link = 0xffffffff

-- LINK_ADDR_LOCAL and LINK_ADDR_REMOTE
unfoldable pub get_link_addr : Link → ℕ → Option Address
get_link_addr l ui_type =
    if ui_type == 1
    then some l.local_address
    else if ui_type == 2
    then some l.remote_address
    else none

unfoldable pub ms_tcp_get_link_addr : {W : Type 0} → Tcp W → ℕ → ℕ → Option Address
unfolding find_link get_link_addr
ms_tcp_get_link_addr t h_link ui_type = elim (find_link t h_link) [
  | none ↦ none
  | some l ↦ get_link_addr l ui_type
]

module _ (os : Os) where
  open os use {World}

  unfoldable pub ms_tcp_create : Tcp World → Option (List ℕ) → ℕ → ℕ × Tcp World
  unfolding link_create add_tcp_link send_event new_link
  ms_tcp_create t p_local_addr port =
      let c = link_create os t (new_link os t.world) p_local_addr port in
      let added = add_tcp_link c.tcp c.link in
      if c.ok then (added.0, send_event added.1 (created added.0)) else (invalid_link, c.tcp)

  unfoldable pub ms_tcp_destroy : Tcp World → ℕ → Bool × Tcp World
  unfolding find_link link_destroy
  ms_tcp_destroy t h_link = elim (find_link t h_link) [
    | none ↦ (false, t)
    | some l ↦ (true, (link_destroy os t l).1)
  ]

  -- A call on a link that succeeds puts the link's socket into the epoll set.
  unfoldable pub attach : ℕ → Called World → Bool × Tcp World
  unfolding store attach_to_epoll
  attach h_link c =
      let t = store c.tcp c.link in
      if c.ok
      then (true, record t { world = (attach_to_epoll os t.world c.link.mi_socket h_link true).1 })
      else (false, t)

  unfoldable pub ms_tcp_connect : Tcp World → ℕ → Option (List ℕ) → ℕ → Bool × Tcp World
  unfolding find_link link_connect attach
  ms_tcp_connect t h_link p_addr port = elim (find_link t h_link) [
    | none ↦ (false, t)
    | some l ↦ attach h_link (link_connect os t l p_addr port)
  ]

  unfoldable pub ms_tcp_listen : Tcp World → ℕ → ℕ → Bool × Tcp World
  unfolding find_link link_listen attach
  ms_tcp_listen t h_link ui_block = elim (find_link t h_link) [
    | none ↦ (false, t)
    | some l ↦ attach h_link (link_listen os t l ui_block)
  ]

  -- The result of `link_send` written back, with the flag and the world.
  unfoldable pub sent_state : Tcp World → SendResult World → Tcp World
  unfolding store
  sent_state t r = store (record t { send_flag = r.send_flag; world = r.world }) r.link

  unfoldable pub ms_tcp_send : Tcp World → ℕ → Option (List ℕ) → ℕ → Bool × Tcp World
  unfolding find_link link_send sent_state
  ms_tcp_send t h_link p_data ui_size = elim (find_link t h_link) [
    | none ↦ (false, t)
    | some l ↦ let r = link_send os l t.send_flag t.world p_data ui_size in (r.ok, sent_state t r)
  ]
