-- ===== src/Epoll/System.antt =====
-- The library as a whole: the calls of the user, and the rounds of the two threads, each of which
-- is taken to run alone, as it does under the lock of the map.
pub mod Rounds
pub mod Laws
use net_lib_wrapper.Prelude.{ℕ, ◌≡◌, Bool, false, Option, some, List, []}
use net_lib_wrapper.Os.{Os, Fd}
use net_lib_wrapper.Tcp.Table.{Tcp, check_link_timeout, free_all_link_map}
use net_lib_wrapper.Tcp.Api.{
  ms_tcp_create, ms_tcp_destroy, ms_tcp_connect, ms_tcp_listen, ms_tcp_send,
}
use net_lib_wrapper.Tcp.Invariant.Sending.{IsLong}
use net_lib_wrapper.Epoll.Worker.{EpollEvent, Handled, continues, returns, worker_round}

-- The state that a round leaves, whether the thread goes on or returns.
abbrev pub left : {W : Type 0} → Handled W → Tcp W
left (continues t) = t
left (returns t) = t

-- What may happen next. A round is a step if its fuel is enough, for any batch of events.
pub data Step (os : Os) (t : Tcp os.World) : Tcp os.World → Type 0 where
  create :
      (p_local_addr : Option (List ℕ)) (port : ℕ)
      → Step os t (ms_tcp_create os t p_local_addr port).1
  destroy : (h_link : ℕ) → Step os t (ms_tcp_destroy os t h_link).1
  connect :
      (h_link : ℕ) (p_addr : Option (List ℕ)) (port : ℕ)
      → Step os t (ms_tcp_connect os t h_link p_addr port).1
  listen : (h_link ui_block : ℕ) → Step os t (ms_tcp_listen os t h_link ui_block).1
  send :
      (h_link : ℕ) (p_data : Option (List ℕ)) (ui_size : ℕ)
      → IsLong p_data ui_size
      → Step os t (ms_tcp_send os t h_link p_data ui_size).1
  work :
      (fuel : ℕ) (exit_fd : Fd) (batch : Option (List EpollEvent)) (r : Handled os.World)
      → worker_round os fuel exit_fd batch t ≡ some r
      → Step os t (left r)
  timeout : Step os t (check_link_timeout os t)
  close : Step os t (free_all_link_map os t)

pub data Reach (os : Os) (t : Tcp os.World) : Tcp os.World → Type 0 where
  here : Reach os t t
  later : {u v : Tcp os.World} → Reach os t u → Step os u v → Reach os t v

-- The static members at the start of a program.
abbrev pub start : {W : Type 0} → W → Tcp W
start w = record { world = w; links = []; i_link = 0; send_flag = false; events = [] }
