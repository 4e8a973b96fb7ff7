-- ===== src/Tcp/Recv.antt =====
-- MsTcpLink::on_event_read.
pub mod Laws
use net_lib_wrapper.Prelude.{
  ℕ, zero, suc, ◌+◌, ◌-◌, ◌%◌, ◌^◌, Bool, true, false, Option, none, some, List, [], ◌∷◌, ◌++◌,
  length, take, Round, leave, again, stuck, iterate,
}
use net_lib_wrapper.Os.{
  Os, Errno, ReadReply, eagain, eintr, econnreset, einprogress, other, got, refused,
}
use net_lib_wrapper.Epoll.Defs.{del_epoll_read, mod_epoll_read}
use net_lib_wrapper.Tcp.Link.{Link}
use net_lib_wrapper.Tcp.Table.{
  Tcp, received, begin, middle, finish, send_event, link_destroy, store,
}

-- `i_recv_buff_size`
abbrev pub recv_buff_size : ℕ
recv_buff_size = 10485760

-- `i_recv_size` is `length buffer - below`: it is counted down when a read fails with ECONNRESET, and
-- `below` is how far it is under 0. `fault` records a read into memory before the buffer.
pub record Reading (W : Type 0) : Type 0 where
  pub tcp : Tcp W
  pub link : Link
  pub buffer : List ℕ
  pub below : ℕ
  pub fault : Bool

-- `i_recv_size` as the `unsigned int` that the callback gets.
unfoldable pub reported_size : List ℕ → ℕ → ℕ
reported_size buffer below = (2 ^ 32 + length buffer - below) % 2 ^ 32

-- `i_recv_size += -1`
unfoldable pub step_back : {W : Type 0} → Reading W → Reading W
step_back s = elim s.buffer [
  | [] ↦ record s { below = s.below + 1 }
  | b ∷ bs ↦ record s { buffer = take (length bs) (b ∷ bs) }
]

-- A read of one byte or more, at `p_buffer + i_recv_size`.
unfoldable pub step_forward : {W : Type 0} → List ℕ → Reading W → Reading W
step_forward bytes s = elim s.below [
  | zero ↦ record s { buffer = s.buffer ++ bytes }
  | suc n ↦ record s { fault = true }
]

module _ (os : Os) where
  open os use {World}

  -- What follows the call of `read`.
  unfoldable pub after_read : Reading World → World → ReadReply → Round (Reading World)
  unfolding step_back step_forward send_event del_epoll_read mod_epoll_read
  after_read s w (got []) =
      let t = record s.tcp { world = (del_epoll_read os w s.link.mi_socket).1 } in
      let (l, t') = link_destroy os t s.link in leave (record s { tcp = t'; link = l })
  after_read s w (got (b ∷ bs)) =
      let t = send_event (record s.tcp { world = w }) (received s.link.mh_link middle [] 0) in
      again (step_forward (b ∷ bs) (record s { tcp = t }))
  after_read s w (refused econnreset) =
      let t = send_event (record s.tcp { world = w }) (received s.link.mh_link middle [] 0) in
      again (step_back (record s { tcp = t }))
  after_read s w (refused eintr) =
      let w' = (mod_epoll_read os w s.link.mi_socket s.link.mh_link).1 in
      leave (record s { tcp = record s.tcp { world = w' } })
  after_read s w (refused eagain) = leave (record s { tcp = record s.tcp { world = w } })
  after_read s w (refused einprogress) = leave (record s { tcp = record s.tcp { world = w } })
  after_read s w (refused (other n)) = leave (record s { tcp = record s.tcp { world = w } })

  -- The body of `while( true )`.
  unfoldable pub read_once : Reading World → Round (Reading World)
  unfolding after_read
  read_once s =
      let room = recv_buff_size + s.below - length s.buffer in
      let r = os.read s.tcp.world s.link.mi_socket room in after_read s r.1 r.0

  -- The end of the call: the buffer goes to the callback, and the link's time is set.
  unfoldable pub recv_end : Reading World → Tcp World
  unfolding reported_size send_event store
  recv_end s =
      let size = reported_size s.buffer s.below in
      let t = send_event s.tcp (received s.link.mh_link finish s.buffer size) in
      store t (record s.link { last_alive_time = os.time t.world })

  unfoldable pub on_event_read : ℕ → Tcp World → Link → Option (Tcp World × Reading World)
  unfolding read_once recv_end
  on_event_read fuel t l =
      let t' = send_event t (received l.mh_link begin [] 0) in
      let start : Reading World = record {
        tcp = t';
        link = l;
        buffer = [];
        below = 0;
        fault = false;
      } in
      elim (iterate fuel read_once start) [ none ↦ none | some s ↦ some (recv_end s, s) ]
