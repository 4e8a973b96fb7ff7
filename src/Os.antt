-- ===== src/Os.antt =====
-- The operating system as tcp-link.cpp, ms-epoll.cpp and their UDP counterparts see it. None of it
-- is code of the repository, so the components take it as a parameter.
use net_lib_wrapper.Prelude.{ℕ, ◌≤◌, ◌<◌, ◌≡◌, Bool, Option, List, length}

-- The values of `errno` that the sources test. EWOULDBLOCK is EAGAIN on Linux.
pub data Errno : Type 0 where
  eagain eintr econnreset einprogress : Errno
  other : ℕ → Errno

-- A system call's result and what `errno` holds after it. `failed` is -1.
pub data Reply : Type 0 where
  done : ℕ → Errno → Reply
  failed : Errno → Reply

-- What a read of a socket yields: the bytes, or -1.
pub data ReadReply : Type 0 where
  got : List ℕ → ReadReply
  refused : Errno → ReadReply

-- A file descriptor as the sources keep it: `none` is -1.
abbrev pub Fd : Type 0
Fd = Option ℕ

-- An IPv4 address and a port in host order: what a `sockaddr_in` holds after `ntohl` and `ntohs`.
pub record Address : Type 0 where
  pub ip : ℕ
  pub port : ℕ

-- Each call takes the state of the world and returns the next one.
pub record Os : Type 1 where
  pub World : Type 0
  pub write : World → Fd → List ℕ → Reply × World
  pub sendto : World → Fd → List ℕ → Address → Reply × World
  pub read : World → Fd → ℕ → ReadReply × World
  pub recvfrom : World → Fd → ℕ → Option (List ℕ × Address) × World
  pub time : World → ℕ
  pub socket : World → Fd × World
  pub bind : World → Fd → Address → Bool × World
  pub connect : World → Fd → Address → Reply × World
  pub listen : World → Fd → ℕ → Bool × World
  pub accept : World → Fd → Option (ℕ × Address) × World
  pub getsockname : World → Fd → Option Address × World
  pub set_nonblock : World → Fd → World
  pub shutdown : World → Fd → World
  pub close : World → Fd → World
  pub resolve : World → List ℕ → Option ℕ
  pub epoll_add : World → Fd → ℕ → ℕ → Bool × World
  pub epoll_mod : World → Fd → ℕ → ℕ → Bool × World
  pub epoll_del : World → Fd → Bool × World

-- What write(2) says of a socket: it takes at least one byte of a request that has some, and at
-- most all of them.
pub record WriteLaws (os : Os) : Type 0 where
  pub within :
      (w : os.World) (fd : Fd) (bytes : List ℕ) (k : ℕ) (e : Errno)
      → (os.write w fd bytes).0 ≡ done k e
      → k ≤ length bytes
  pub progress :
      (w : os.World) (fd : Fd) (bytes : List ℕ) (k : ℕ) (e : Errno)
      → (os.write w fd bytes).0 ≡ done k e
      → 0 < length bytes
      → 0 < k

-- What read(2) says of a socket: no more bytes than asked for, so none if none are asked for.
pub record ReadLaws (os : Os) : Type 0 where
  pub within :
      (w : os.World) (fd : Fd) (n : ℕ) (bytes : List ℕ)
      → (os.read w fd n).0 ≡ got bytes
      → length bytes ≤ n
