-- ===== src/Session/Manager.antt =====
-- samples/samples-client/include/link-mgr.h: `LinkMgr`, the server's map from links to handles; and
-- `TcpIOCallbackFunc` of net-handler.h, which hands it the events of the links.
pub mod Listing
pub mod Silence
pub mod Mixing
use net_lib_wrapper.Prelude.{
  ℕ, ◌+◌, ◌%◌, ◌^◌, Bool, true, false, not, ◌&&◌, Option, none, some, List, [], ◌∷◌, ◌++◌, ◌==◌,
  if◌then◌else◌, length, take, drop,
}
use net_lib_wrapper.Prelude.Assoc
use net_lib_wrapper.Os.{Os}
use net_lib_wrapper.Frame.Parse.{Message}
use net_lib_wrapper.Frame.Receive.{Delivery, received, unknown_packet, on_tcp_recv_data}
use net_lib_wrapper.Tcp.Table
use net_lib_wrapper.Tcp.Table.{Tcp, Event, RecvStatus, finish}
use net_lib_wrapper.Tcp.Api.{
  invalid_link, ms_tcp_create, ms_tcp_destroy, ms_tcp_listen, ms_tcp_send, ms_tcp_get_link_addr,
}
use net_lib_wrapper.Session.Handle.{
  LinkHdr, new_handle, set_link, set_remote_ip, convert_ip, recv_data,
}

-- `m_link_map`, `mh_tcp_link`, and `mv_recv_buf` of the base class.
pub record LinkMgr : Type 0 where
  pub link_map : List (ℕ × LinkHdr)
  pub mh_tcp_link : ℕ
  pub mv_recv_buf : List ℕ

-- The loop of `broad_cast` over the map.
unfoldable pub broadcast_links : List (ℕ × LinkHdr) → List ℕ
broadcast_links [] = []
broadcast_links ((h, hdr) ∷ m) =
    let rest = broadcast_links m in if hdr.mb_can_broadcast then h ∷ rest else rest

-- The loop of `broad_cast_except`.
unfoldable pub broadcast_links_except : ℕ → List (ℕ × LinkHdr) → List ℕ
broadcast_links_except h_link [] = []
broadcast_links_except h_link ((h, hdr) ∷ m) =
    let rest = broadcast_links_except h_link m in
    if hdr.mb_can_broadcast && not (h == h_link) then h ∷ rest else rest

-- The loop of `get_all_hdr`.
abbrev pub handles : List (ℕ × LinkHdr) → List LinkHdr
handles [] = []
handles ((h, hdr) ∷ m) = hdr ∷ handles m

unfoldable pub get_all_hdr : LinkMgr → List LinkHdr → List LinkHdr
get_all_hdr mgr hdr_list = hdr_list ++ handles mgr.link_map

unfoldable pub get_link_cnt : LinkMgr → ℕ
get_link_cnt mgr = length mgr.link_map % 2 ^ 32

-- The handle, with `none` for the result false.
unfoldable pub find_hdr : ℕ → LinkMgr → Option LinkHdr
find_hdr h_link mgr = Assoc.find h_link mgr.link_map

unfoldable pub same_name : List ℕ → List ℕ → Bool
same_name [] [] = true
same_name (a ∷ xs) (b ∷ ys) = (a == b) && same_name xs ys
same_name _ _ = false

unfoldable pub with_name : List ℕ → List (ℕ × LinkHdr) → List LinkHdr
with_name str_name [] = []
with_name str_name ((h, hdr) ∷ m) =
    let rest = with_name str_name m in
    if same_name hdr.mstr_link_name str_name then hdr ∷ rest else rest

unfoldable pub find_hdr_by_name : List ℕ → LinkMgr → List LinkHdr → List LinkHdr
find_hdr_by_name str_name mgr hdr_list = hdr_list ++ with_name str_name mgr.link_map

-- The handle that `link_create` makes, with the remote address if the link is found.
unfoldable pub handle_for : {W : Type 0} → ℕ → Tcp W → LinkHdr
handle_for h_link t =
    let p_hdr = set_link h_link new_handle in
    elim (ms_tcp_get_link_addr t h_link 2) [
      | none ↦ p_hdr
      | some a ↦ set_remote_ip (convert_ip a.ip) p_hdr
    ]

-- `link_create`
unfoldable pub link_create : {W : Type 0} → ℕ → LinkMgr → Tcp W → Bool × LinkMgr
link_create h_link mgr t = elim (Assoc.find h_link mgr.link_map) [
  | some _ ↦ (false, mgr)
  | none ↦ (true, record mgr { link_map = Assoc.insert h_link (handle_for h_link t) mgr.link_map })
]

-- `link_remove`. The hook `link_destroy` does nothing in the server.
unfoldable pub link_remove : ℕ → LinkMgr → Bool × LinkMgr
link_remove h_link mgr = elim (Assoc.find h_link mgr.link_map) [
  | none ↦ (false, mgr)
  | some _ ↦ (true, record mgr { link_map = Assoc.erase h_link mgr.link_map })
]

-- `on_tcp_closed` and `on_tcp_disconnected`.
unfoldable pub on_tcp_closed : ℕ → LinkMgr → LinkMgr
on_tcp_closed h_link mgr = if h_link == mgr.mh_tcp_link then mgr else (link_remove h_link mgr).1

unfoldable pub on_tcp_accepted : {W : Type 0} → ℕ → LinkMgr → Tcp W → LinkMgr
on_tcp_accepted h_accept_link mgr t = (link_create h_accept_link mgr t).1

module _ (os : Os) where
  open os use {World}

  -- `send_pkt_to_link` for one link: its switch has no case.
  unfoldable pub send_pkt_to_link : Option Message → ℕ → Tcp World → Bool × Tcp World
  send_pkt_to_link none h_link t = (false, t)
  send_pkt_to_link (some p_pkt) h_link t = (true, t)

  -- The loop over the links. `&vc_buffer[0]` of an empty vector is NULL.
  unfoldable pub send_to_each : List ℕ → Tcp World → Tcp World
  send_to_each [] t = t
  send_to_each (h ∷ hs) t = send_to_each hs (ms_tcp_send os t h none 0).1

  -- `send_pkt_to_link` for several links: its switch has no case, so that the buffer stays empty.
  unfoldable pub send_pkt_to_links : Option Message → List ℕ → Tcp World → Bool × Tcp World
  send_pkt_to_links none link_vec t = (false, t)
  send_pkt_to_links (some p_pkt) link_vec t = (true, send_to_each link_vec t)

  unfoldable pub broad_cast : Option Message → LinkMgr → Tcp World → Tcp World
  broad_cast p_pkt mgr t = (send_pkt_to_links p_pkt (broadcast_links mgr.link_map) t).1

  unfoldable pub broad_cast_except : Option Message → ℕ → LinkMgr → Tcp World → Tcp World
  broad_cast_except p_pkt h_link mgr t =
      (send_pkt_to_links p_pkt (broadcast_links_except h_link mgr.link_map) t).1

  -- `link_recv_data`: the result, and the links after the handle's answer.
  unfoldable pub link_recv_data : ℕ → Message → LinkMgr → Tcp World → Bool × Tcp World
  link_recv_data h_link p_pkt mgr t = elim (Assoc.find h_link mgr.link_map) [
    | none ↦ (false, t)
    | some p_hdr ↦ (true, (recv_data os p_hdr p_pkt t).1)
  ]

  -- The calls that the scan of the receive buffer makes.
  unfoldable pub deliver : ℕ → List Delivery → LinkMgr → Tcp World → Tcp World
  deliver h_link [] mgr t = t
  deliver h_link (received m ∷ calls) mgr t =
      deliver h_link calls mgr (link_recv_data h_link m mgr t).1
  deliver h_link (unknown_packet ∷ calls) mgr t = deliver h_link calls mgr t

  -- `on_tcp_recv_data`: one buffer serves all links. `none` is fuel that ran out.
  unfoldable pub on_recv :
      List ℕ → ℕ → ℕ → List ℕ → LinkMgr → Tcp World → Option (LinkMgr × Tcp World)
  on_recv beyond fuel h_link p_data mgr t =
      elim (on_tcp_recv_data beyond fuel mgr.mv_recv_buf p_data) [
        | none ↦ none
        | some (buf, calls) ↦ some (record mgr { mv_recv_buf = buf }, deliver h_link calls mgr t)
      ]

  -- `TcpIOCallbackFunc`
  unfoldable pub tcp_io_callback :
      List ℕ → ℕ → Event → LinkMgr → Tcp World → Option (LinkMgr × Tcp World)
  tcp_io_callback beyond fuel (Event.created h_link) mgr t = some (mgr, t)
  tcp_io_callback beyond fuel (Event.closed h_link) mgr t = some (on_tcp_closed h_link mgr, t)
  tcp_io_callback beyond fuel (Event.accepted h_link h_accept_link) mgr t =
      some (on_tcp_accepted h_accept_link mgr t, t)
  tcp_io_callback beyond fuel (Event.connected h_link) mgr t = some (mgr, t)
  tcp_io_callback beyond fuel (Event.disconnected h_link) mgr t = some (on_tcp_closed h_link mgr, t)
  tcp_io_callback beyond fuel (Event.received h_link finish p_data ui_size) mgr t =
      on_recv beyond fuel h_link (take ui_size p_data) mgr t
  tcp_io_callback beyond fuel (Event.received h_link _ p_data ui_size) mgr t = some (mgr, t)

  -- `Init`: the result, the manager and the links.
  unfoldable pub init : Option (List ℕ) → ℕ → LinkMgr → Tcp World → Bool × LinkMgr × Tcp World
  init listen_ip listen_port mgr t =
      let (h, t') = ms_tcp_create os t listen_ip listen_port in
      let mgr' = record mgr { mh_tcp_link = h } in
      let (ok, t'') = ms_tcp_listen os t' h 5 in
      if h == invalid_link then (false, mgr', t') else (ok, mgr', t'')

  -- The callbacks of a destruction, which reports only that links are closed.
  unfoldable pub hear : List Event → LinkMgr → LinkMgr
  hear [] mgr = mgr
  hear (Event.closed h ∷ es) mgr = hear es (on_tcp_closed h mgr)
  hear (_ ∷ es) mgr = hear es mgr

  -- `tcp_destroy`, with the callbacks it makes.
  unfoldable pub tcp_destroy : ℕ → LinkMgr × Tcp World → LinkMgr × Tcp World
  tcp_destroy h_link (mgr, t) =
      let t' = (ms_tcp_destroy os t h_link).1 in (hear (drop (length t.events) t'.events) mgr, t')

  -- The second loop of `link_remove_all`.
  unfoldable pub destroy_each : List (ℕ × LinkHdr) → LinkMgr × Tcp World → LinkMgr × Tcp World
  destroy_each [] s = s
  destroy_each ((h, _) ∷ m) s = destroy_each m (tcp_destroy h s)

  unfoldable pub link_remove_all : LinkMgr × Tcp World → LinkMgr × Tcp World
  link_remove_all (mgr, t) = destroy_each mgr.link_map (mgr, t)

  unfoldable pub uninit : LinkMgr × Tcp World → LinkMgr × Tcp World
  uninit (mgr, t) = tcp_destroy mgr.mh_tcp_link (link_remove_all (mgr, t))
