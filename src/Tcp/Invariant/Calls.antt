-- ===== src/Tcp/Invariant/Calls.antt =====
-- The functions that users call keep the map of links sound.
use net_lib_wrapper.Prelude.{
  ℕ, ◌≡◌, Option, none, some, List, arith, Bool-cases, Option-cases, inl, inr, ◌==◌,
}
use net_lib_wrapper.Os.{Os, Address}
use net_lib_wrapper.Tcp.Link.{Link}
use net_lib_wrapper.Tcp.Table.{Tcp, find_link, store, send_event, new_link}
use net_lib_wrapper.Tcp.Setup.{
  Called, link_create, bind_link, get_ip_by_name, link_connect, connect_to, link_listen,
}
use net_lib_wrapper.Tcp.Api.{attach, ms_tcp_create, ms_tcp_destroy, ms_tcp_connect, ms_tcp_listen}
use net_lib_wrapper.Tcp.Invariant.{IsKept, IsSane}
use net_lib_wrapper.Tcp.Invariant.Table.{
  find_link-IsKept, IsKept-same, store-IsSane, add_tcp_link-IsSane, link_destroy-IsSane,
}

-- A call on a link that leaves its handle and its buffers, and the map, as they were.
pub record IsMild {W : Type 0} (t : Tcp W) (l : Link) (c : Called W) : Type 0 where
  pub same : c.link.mh_link ≡ l.mh_link
  pub buffers : c.link.send_buff_list ≡ l.send_buff_list
  pub links : c.tcp.links ≡ t.links
  pub counter : c.tcp.i_link ≡ t.i_link
  pub flag : c.tcp.send_flag ≡ t.send_flag

module _ (os : Os) where
  link_create-IsMild :
      (t : Tcp os.World) (l : Link) (p_local_addr : Option (List ℕ)) (port : ℕ)
      → IsMild t l (link_create os t l p_local_addr port)
  unfolding link_create bind_link
  link_create-IsMild t l p_local_addr port = ground arith

  connect_to-IsMild :
      (t : Tcp os.World) (l : Link) (remote : Address) → IsMild t l (connect_to os t l remote)
  unfolding connect_to send_event
  connect_to-IsMild t l remote = ground arith

  link_connect-IsMild :
      (t : Tcp os.World) (l : Link) (p_addr : Option (List ℕ)) (port : ℕ)
      → IsMild t l (link_connect os t l p_addr port)
  unfolding link_connect
  link_connect-IsMild t l none port = ground arith
  link_connect-IsMild t l (some name) port = elim (Bool-cases (port == 0)) [
    | inl zero_port ↦ rw zero_port (ground arith)
    | inr real_port ↦ rw real_port (elim (Option-cases (get_ip_by_name os t.world name)) [
      | inl unknown ↦ rw unknown (ground arith)
      | inr (ip, known) ↦ rw known (connect_to-IsMild t l (record { ip = ip; port = port }))
    ])
  ]

  link_listen-IsMild :
      (t : Tcp os.World) (l : Link) (ui_block : ℕ) → IsMild t l (link_listen os t l ui_block)
  unfolding link_listen
  link_listen-IsMild t l ui_block = ground arith

  IsMild-IsSane :
      {dead : ℕ} (t : Tcp os.World) (l : Link) (c : Called os.World)
      → IsMild t l c
      → IsSane dead t
      → IsSane dead c.tcp
  IsMild-IsSane t l c m s = rw (m.flag, m.counter, m.links) s

  pub ms_tcp_create-IsSane :
      {dead : ℕ} (t : Tcp os.World) (p_local_addr : Option (List ℕ)) (port : ℕ)
      → IsSane dead t
      → IsSane dead (ms_tcp_create os t p_local_addr port).1
  unfolding ms_tcp_create
  ms_tcp_create-IsSane {dead} t p_local_addr port s =
      let c = link_create os t (new_link os t.world) p_local_addr port in
      let m : IsMild t (new_link os t.world) c =
        link_create-IsMild t (new_link os t.world) p_local_addr port in
      let s' : IsSane dead c.tcp = IsMild-IsSane t (new_link os t.world) c m s in
      elim (Bool-cases c.ok) [
        | inl made ↦ rw (made, ms_tcp_create) (add_tcp_link-IsSane c.tcp c.link m.buffers s')
        | inr refused ↦ rw (refused, ms_tcp_create) s'
      ]

  pub ms_tcp_destroy-IsSane :
      {dead : ℕ} (t : Tcp os.World) (h_link : ℕ)
      → IsSane dead t
      → IsSane dead (ms_tcp_destroy os t h_link).1
  unfolding ms_tcp_destroy
  ms_tcp_destroy-IsSane t h_link s = elim (Option-cases (find_link t h_link)) [
    | inl missing ↦ rw (missing, ms_tcp_destroy) s
    | inr (l, there) ↦ rw (there, ms_tcp_destroy) (link_destroy-IsSane os t l s)
  ]

  -- The end of ms_tcp_connect and ms_tcp_listen.
  attach-IsSane :
      {dead : ℕ} (t : Tcp os.World) (h_link : ℕ) (l : Link) (c : Called os.World)
      → find_link t h_link ≡ some l
      → IsMild t l c
      → IsSane dead t
      → IsSane dead (attach os h_link c).1
  unfolding attach
  attach-IsSane {dead} t h_link l c there m s =
      let k : IsKept dead t.send_flag t.i_link h_link l = find_link-IsKept t h_link l s there in
      let k' : IsKept dead t.send_flag t.i_link h_link c.link =
        IsKept-same t.send_flag t.i_link h_link l c.link m.same m.buffers k in
      let stored : IsSane dead (store c.tcp c.link) =
        store-IsSane c.tcp h_link c.link (rw (m.flag, m.counter) k') (IsMild-IsSane t l c m s) in
      elim (Bool-cases c.ok) [
        | inl made ↦ rw (made, attach) stored
        | inr refused ↦ rw (refused, attach) stored
      ]

  pub ms_tcp_connect-IsSane :
      {dead : ℕ} (t : Tcp os.World) (h_link : ℕ) (p_addr : Option (List ℕ)) (port : ℕ)
      → IsSane dead t
      → IsSane dead (ms_tcp_connect os t h_link p_addr port).1
  unfolding ms_tcp_connect
  ms_tcp_connect-IsSane t h_link p_addr port s = elim (Option-cases (find_link t h_link)) [
    | inl missing ↦ rw (missing, ms_tcp_connect) s
    | inr (l, there) ↦
        rw (there, ms_tcp_connect)
          (attach-IsSane t h_link l _ there (link_connect-IsMild t l p_addr port) s)
  ]

  pub ms_tcp_listen-IsSane :
      {dead : ℕ} (t : Tcp os.World) (h_link ui_block : ℕ)
      → IsSane dead t
      → IsSane dead (ms_tcp_listen os t h_link ui_block).1
  unfolding ms_tcp_listen
  ms_tcp_listen-IsSane t h_link ui_block s = elim (Option-cases (find_link t h_link)) [
    | inl missing ↦ rw (missing, ms_tcp_listen) s
    | inr (l, there) ↦
        rw (there, ms_tcp_listen)
          (attach-IsSane t h_link l _ there (link_listen-IsMild t l ui_block) s)
  ]
