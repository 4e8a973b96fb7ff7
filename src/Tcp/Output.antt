-- ===== src/Tcp/Output.antt =====
-- MsTcpLink::link_send, on_event_write and do_send_buff.
pub mod Order
pub mod Flag
use net_lib_wrapper.Prelude.{
  ℕ, ◌+◌, ◌-◌, Bool, true, false, not, ◌||◌, Option, none, some, List, [], ◌∷◌, ◌++◌, ltb, ◌==◌,
  if◌then◌else◌, take, drop,
}
use net_lib_wrapper.Os.{Os, Fd, Errno, Reply, done, failed}
use net_lib_wrapper.Tcp.Link.{Link, SendBuff}
use net_lib_wrapper.Tcp.Send.{Drained, send_data, drain, remainder, is_eagain}
use net_lib_wrapper.Tcp.Table.{Tcp, store}

-- What `link_send` returns, and the bytes that the kernel took in it.
pub record SendResult (W : Type 0) : Type 0 where
  pub ok : Bool
  pub bytes : List ℕ
  pub link : Link
  pub send_flag : Bool
  pub world : W

-- A pass over the links: the map, what the kernel took from each link, `mb_send_flag`, the world.
pub record Flushed (W : Type 0) : Type 0 where
  pub links : List (ℕ × Link)
  pub bytes : List (ℕ × List ℕ)
  pub send_flag : Bool
  pub world : W

unfoldable pub is_empty : List SendBuff → Bool
is_empty [] = true
is_empty (b ∷ bs) = false

module _ (os : Os) where
  open os use {World}

  -- `link_send` from the point where `i_send_size` is not negative.
  unfoldable pub queue_rest : Link → Bool → World → List ℕ → ℕ → ℕ → SendResult World
  unfolding remainder
  queue_rest l flag w p_data ui_size i_send_size =
      let bytes = take i_send_size (take ui_size p_data) in
      let touched : Link = record l { last_alive_time = os.time w } in
      let queued : Link = record touched {
        send_buff_list = l.send_buff_list ++ (remainder p_data ui_size i_send_size ∷ []);
      } in
      if i_send_size == ui_size
      then record { ok = true; bytes = bytes; link = l; send_flag = flag; world = w }
      else if ltb i_send_size ui_size
      then record { ok = true; bytes = bytes; link = queued; send_flag = true; world = w }
      else record { ok = true; bytes = bytes; link = touched; send_flag = flag; world = w }

  -- `link_send` after the call of `send_data`.
  unfoldable pub after_first_write : Link → Bool → World → List ℕ → ℕ → Reply → SendResult World
  unfolding queue_rest is_eagain
  after_first_write l flag w p_data ui_size (done k e) = queue_rest l flag w p_data ui_size k
  after_first_write l flag w p_data ui_size (failed e) =
      let refused : SendResult World = record {
        ok = false;
        bytes = [];
        link = l;
        send_flag = flag;
        world = os.shutdown w l.mi_socket;
      } in
      if is_eagain e then queue_rest l flag w p_data ui_size 0 else refused

  -- `link_send`. `none` is a null pointer.
  unfoldable pub link_send : Link → Bool → World → Option (List ℕ) → ℕ → SendResult World
  unfolding after_first_write send_data
  link_send l flag w none ui_size = record {
    ok = false;
    bytes = [];
    link = l;
    send_flag = flag;
    world = w;
  }
  link_send l flag w (some p_data) ui_size =
      let reply = send_data os w l.mi_socket (take ui_size p_data) in
      if ui_size == 0
      then record { ok = false; bytes = []; link = l; send_flag = flag; world = w }
      else after_first_write l flag reply.1 p_data ui_size reply.0

  -- `on_event_write`: the loop of `do_send_buff` for one link, which leaves the flag alone.
  unfoldable pub on_event_write : ℕ → Link → World → Option (Link × World)
  on_event_write fuel l w = elim (drain os fuel l.mi_socket l.send_buff_list w) [
    | none ↦ none
    | some d ↦
        some (record l { send_buff_list = d.queue; last_alive_time = os.time d.world }, d.world)
  ]

  -- One link of `do_send_buff`: its buffers, the flag and its time.
  unfoldable pub flush_link : ℕ → ℕ → Drained World → Link → Flushed World → Flushed World
  unfolding is_empty
  flush_link fuel h d l rest = record {
    links =
        (h, record l { send_buff_list = d.queue; last_alive_time = os.time d.world }) ∷ rest.links;
    bytes = (h, d.bytes) ∷ rest.bytes;
    send_flag = not (is_empty d.queue) || rest.send_flag;
    world = rest.world;
  }

  -- The loop of `do_send_buff` over the map, from a flag that has been cleared.
  unfoldable pub flush_links : ℕ → List (ℕ × Link) → World → Option (Flushed World)
  unfolding flush_link
  flush_links fuel [] w = some (record { links = []; bytes = []; send_flag = false; world = w })
  flush_links fuel ((h, l) ∷ m) w = elim (drain os fuel l.mi_socket l.send_buff_list w) [
    | none ↦ none
    | some d ↦ elim (flush_links fuel m d.world) [
      | none ↦ none
      | some rest ↦ some (flush_link fuel h d l rest)
    ]
  ]

  -- `do_send_buff`; the second component is what the kernel took from each link.
  unfoldable pub do_send_buff : ℕ → Tcp World → Option (Tcp World × List (ℕ × List ℕ))
  unfolding flush_links
  do_send_buff fuel t = elim t.send_flag [
    | false ↦ some (t, [])
    | true ↦ elim (flush_links fuel t.links t.world) [
      | none ↦ none
      | some f ↦
          some (record t { world = f.world; links = f.links; send_flag = f.send_flag }, f.bytes)
    ]
  ]
