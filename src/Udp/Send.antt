-- ===== src/Udp/Send.antt =====
-- MsUdpLink::link_send_to, do_send_buff and on_event_read.
use net_lib_wrapper.Prelude.{
  ℕ, Bool, true, false, not, ◌||◌, Option, none, some, List, [], ◌∷◌, ◌++◌, ◌==◌, if◌then◌else◌,
  take,
}
use net_lib_wrapper.Os.{Os, Reply, Fd, Address, done, failed}
use net_lib_wrapper.Tcp.Send.{is_eagain}
use net_lib_wrapper.Tcp.Setup.{updated}
use net_lib_wrapper.Udp.Link.{Datagram, UdpLink, Udp, received_from, send_event, store, no_address}

-- `m_send_buff_list`, the datagrams that the kernel has taken, and the world.
pub record Flushed (W : Type 0) : Type 0 where
  pub queue : List Datagram
  pub sent : List (List ℕ × Address)
  pub world : W

-- The result of `link_send_to` and what it changes.
pub record SendResult (W : Type 0) : Type 0 where
  pub ok : Bool
  pub sent : List (List ℕ × Address)
  pub link : UdpLink
  pub send_flag : Bool
  pub world : W

-- The map after a pass, with what each link sent.
pub record Pass (W : Type 0) : Type 0 where
  pub links : List (ℕ × UdpLink)
  pub sent : List (ℕ × List (List ℕ × Address))
  pub send_flag : Bool
  pub world : W

unfoldable pub is_empty : List Datagram → Bool
is_empty [] = true
is_empty (b ∷ bs) = false

module _ (os : Os) where
  open os use {World}

  -- The loop over a link's datagrams: NULL and empty data is dropped, a failure ends the loop, and
  -- what is sent leaves the list.
  unfoldable pub flush : Fd → List Datagram → World → Flushed World
  flush fd [] w = record { queue = []; sent = []; world = w }
  flush fd (b ∷ bs) w =
      let dropped = flush fd bs w in
      elim b.p_data [
        | none ↦ dropped
        | some p_data ↦
            let bytes = take b.ui_size p_data in
            let reply = os.sendto w fd bytes b.dst_addr in
            let rest = flush fd bs reply.1 in
            if b.ui_size == 0 then dropped else elim reply.0 [
              | failed e ↦ record { queue = b ∷ bs; sent = []; world = reply.1 }
              | done k e ↦ record rest { sent = (bytes, b.dst_addr) ∷ rest.sent }
            ]
      ]

  -- The loop over the map, from a flag that has been cleared.
  unfoldable pub flush_links : List (ℕ × UdpLink) → World → Pass World
  unfolding flush is_empty
  flush_links [] w = record { links = []; sent = []; send_flag = false; world = w }
  flush_links ((h, l) ∷ m) w =
      let d = flush l.mi_socket l.send_buff_list w in
      let rest = flush_links m d.world in
      record {
        links = (h, record l { send_buff_list = d.queue }) ∷ rest.links;
        sent = (h, d.sent) ∷ rest.sent;
        send_flag = not (is_empty d.queue) || rest.send_flag;
        world = rest.world;
      }

  unfoldable pub do_send_buff : Udp World → Udp World × List (ℕ × List (List ℕ × Address))
  unfolding flush_links
  do_send_buff t =
      let p = flush_links t.links t.world in
      if t.send_flag
      then (record t { world = p.world; links = p.links; send_flag = p.send_flag }, p.sent)
      else (t, [])

  -- The destination: UDP_FLAG_BROADCAST is 2, and INADDR_BROADCAST has all bits set. An address that
  -- `inet_addr` cannot read is also all ones.
  unfoldable pub destination : ℕ → Option ℕ → ℕ → Option Address
  destination i_flag p_ip us_port =
      if i_flag == 2
      then some (record { ip = 0xffffffff; port = us_port })
      else elim p_ip [ none ↦ none | some ip ↦ some (record { ip = ip; port = us_port }) ]

  -- `link_send_to` after the call of `sendto`.
  unfoldable pub after_sendto :
      UdpLink → Bool → List ℕ → ℕ → Address → World → Reply → SendResult World
  unfolding is_eagain
  after_sendto l flag p_data ui_size dst_addr w (done k e) = record {
    ok = true;
    sent = (take ui_size p_data, dst_addr) ∷ [];
    link = l;
    send_flag = flag;
    world = w;
  }
  after_sendto l flag p_data ui_size dst_addr w (failed e) =
      let queued : Datagram = record {
        p_data = some (take ui_size p_data);
        ui_size = ui_size;
        dst_addr = dst_addr;
      } in
      if is_eagain e
      then record {
        ok = true;
        sent = [];
        link = record l { send_buff_list = l.send_buff_list ++ (queued ∷ []) };
        send_flag = true;
        world = w;
      }
      else record { ok = false; sent = []; link = l; send_flag = flag; world = w }

  -- `p_ip` is NULL or the address that `inet_addr` reads from it.
  unfoldable pub link_send_to :
      UdpLink → Bool → World → List ℕ → ℕ → ℕ → Option ℕ → ℕ → SendResult World
  unfolding destination after_sendto
  link_send_to l flag w p_data ui_size i_flag p_ip us_port =
      elim (destination i_flag p_ip us_port) [
        | none ↦ record { ok = false; sent = []; link = l; send_flag = flag; world = w }
        | some a ↦
            let r = os.sendto w l.mi_socket (take ui_size p_data) a in
            after_sendto l flag p_data ui_size a r.1 r.0
      ]

  -- `on_event_read` once `recvfrom` has returned.
  unfoldable pub after_recvfrom : Udp World → UdpLink → Option (List ℕ × Address) → Udp World
  unfolding updated send_event store
  after_recvfrom t l none = store t (record l { remote_address = no_address })
  after_recvfrom t l (some ([], from)) = store t (record l { remote_address = from })
  after_recvfrom t l (some (b ∷ bs, from)) =
      let (name, w) = os.getsockname t.world l.mi_socket in
      let l' = record l { remote_address = from; local_address = updated name l.local_address } in
      store (send_event (record t { world = w }) (received_from l.mh_link (b ∷ bs) from)) l'

  -- `on_event_read`: one datagram, however many wait.
  unfoldable pub on_event_read : Udp World → UdpLink → Udp World
  unfolding after_recvfrom
  on_event_read t l =
      let (r, w) = os.recvfrom t.world l.mi_socket 10485760 in
      after_recvfrom (record t { world = w }) l r
