-- ===== src/Epoll/Defs.antt =====
-- ms-epoll.cpp, and the same code of udp-ms-epoll.cpp: event masks, and what is registered with
-- the epoll set.
use net_lib_wrapper.Prelude.{
  ℕ, ◌+◌, ◌*◌, ◌/◌, ◌%◌, ◌^◌, Bool, not, none, some, bit_and, ◌==◌, if◌then◌else◌,
}
use net_lib_wrapper.Os.{Os, Fd}

-- EPOLLIN 1, EPOLLOUT 4, EPOLLERR 8, EPOLLHUP 0x10, EPOLLRDHUP 0x2000, EPOLLET 0x80000000.
unfoldable pub is_disconnected : ℕ → Bool
is_disconnected ui_event = not (bit_and ui_event 0x2018 == 0)

unfoldable pub is_readable : ℕ → Bool
is_readable ui_event = not (bit_and ui_event 0x1 == 0)

unfoldable pub is_writeable : ℕ → Bool
is_writeable ui_event = not (bit_and ui_event 0x4 == 0)

-- A descriptor as 32 bits: -1 is all ones.
unfoldable pub fd_bits : Fd → ℕ
fd_bits none = 0xffffffff
fd_bits (some fd) = fd % 2 ^ 32

-- `event.data`: the handle is shifted into the high half of `u64`, then `fd`, which shares its low
-- half on a little-endian machine, is set.
unfoldable pub event_data : ℕ → Fd → ℕ
unfolding fd_bits
event_data h_link fd = h_link * 2 ^ 32 % 2 ^ 64 / 2 ^ 32 * 2 ^ 32 + fd_bits fd

-- `events[i].data.u64 >> 32`, as a 32-bit handle, and `events[i].data.fd`.
unfoldable pub data_link : ℕ → ℕ
data_link data' = data' / 2 ^ 32 % 2 ^ 32

unfoldable pub data_fd : ℕ → ℕ
data_fd data' = data' % 2 ^ 32

module _ (os : Os) where
  open os use {World}

  unfoldable pub attach_to_epoll : World → Fd → ℕ → Bool → Bool × World
  unfolding event_data
  attach_to_epoll w fd h_link b_write =
      os.epoll_add w fd (event_data h_link fd) (if b_write then 0x80002005 else 0x80000001)

  unfoldable pub mod_epoll_read : World → Fd → ℕ → Bool × World
  unfolding event_data
  mod_epoll_read w fd h_link = os.epoll_mod w fd (event_data h_link fd) 0x80002005

  unfoldable pub del_epoll_read : World → Fd → Bool × World
  del_epoll_read w fd = os.epoll_del w fd
