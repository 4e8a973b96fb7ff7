-- ===== src/Tests/Scripted.antt =====
-- An operating system that answers from a script, for the examples.
use Prim.Native.Nat.{min}
use net_lib_wrapper.Prelude.{
  ℕ, zero, suc, ◌≤◌, ◌<◌, ◌≡◌, true, Option, none, some, List, [], ◌∷◌, arith, length,
}
use net_lib_wrapper.Os.{
  Os, WriteLaws, Errno, Reply, ReadReply, Address, eagain, other, done, failed, refused,
}
use net_lib_wrapper.Tcp.Send.Halting.{IsPatient}

-- The answers to come. A write's answer is the number of bytes that the kernel has room for: none is
-- EAGAIN, and when the script is over all bytes are taken.
pub record Script : Type 0 where
  pub writes : List ℕ
  pub reads : List ReadReply
  pub accepts : List ℕ
  pub clock : ℕ

abbrev pub write_room : Option ℕ → List ℕ → Reply
write_room none bytes = done (length bytes) eagain
write_room (some zero) bytes = failed eagain
write_room (some (suc k)) bytes = done (min (suc k) (length bytes)) eagain

abbrev pub first {ℓ} : {A : Type ℓ} → List A → Option A
first [] = none
first (x ∷ xs) = some x

abbrev pub rest {ℓ} : {A : Type ℓ} → List A → List A
rest [] = []
rest (x ∷ xs) = xs

abbrev pub home : Address
home = record { ip = 0x7f000001; port = 8899 }

abbrev pub answer_read : Option ReadReply → ReadReply
answer_read none = refused eagain
answer_read (some r) = r

abbrev pub answer_accept : Option ℕ → Option (ℕ × Address)
answer_accept none = none
answer_accept (some fd) = some (fd, home)

abbrev pub scripted : Os
scripted = record {
  World = Script;
  write = λ w fd bytes. (write_room (first w.writes) bytes, record w { writes = rest w.writes });
  sendto =
      λ w fd bytes to. (write_room (first w.writes) bytes, record w { writes = rest w.writes });
  read = λ w fd n. (answer_read (first w.reads), record w { reads = rest w.reads });
  recvfrom = λ w fd n. (none, w);
  time = λ w. w.clock;
  socket = λ w. (some 7, w);
  bind = λ w fd a. (true, w);
  connect = λ w fd a. (done 0 eagain, w);
  listen = λ w fd n. (true, w);
  accept = λ w fd. (answer_accept (first w.accepts), record w { accepts = rest w.accepts });
  getsockname = λ w fd. (some home, w);
  set_nonblock = λ w fd. w;
  shutdown = λ w fd. w;
  close = λ w fd. w;
  resolve = λ w name. some 0x7f000001;
  epoll_add = λ w fd h e. (true, w);
  epoll_mod = λ w fd h e. (true, w);
  epoll_del = λ w fd. (true, w);
}

room_within :
    (o : Option ℕ) (bytes : List ℕ) (k : ℕ) (e : Errno)
    → write_room o bytes ≡ done k e
    → k ≤ length bytes
room_within none bytes k e r = ground arith
room_within (some zero) bytes k e r = cc
room_within (some (suc n)) bytes k e r = ground arith

room_progress :
    (o : Option ℕ) (bytes : List ℕ) (k : ℕ) (e : Errno)
    → write_room o bytes ≡ done k e
    → 0 < length bytes
    → 0 < k
room_progress none bytes k e r pos = ground arith
room_progress (some zero) bytes k e r pos = cc
room_progress (some (suc n)) bytes k e r pos = ground arith

pub scripted-WriteLaws : WriteLaws scripted
scripted-WriteLaws = record {
  within = λ w fd bytes k e r. room_within (first w.writes) bytes k e r;
  progress = λ w fd bytes k e r pos. room_progress (first w.writes) bytes k e r pos;
}

abbrev pub refusals : List ℕ → ℕ
refusals [] = 0
refusals (zero ∷ ws) = suc (refusals ws)
refusals (suc k ∷ ws) = refusals ws

refusal_lem :
    (ws : List ℕ) (bytes : List ℕ) (e : Errno)
    → write_room (first ws) bytes ≡ failed e
    → refusals (rest ws) < refusals ws
refusal_lem [] bytes e r = cc
refusal_lem (zero ∷ ws) bytes e r = omega arith
refusal_lem (suc k ∷ ws) bytes e r = cc

acceptance_lem : (ws : List ℕ) → refusals (rest ws) ≤ refusals ws
acceptance_lem [] = omega arith
acceptance_lem (zero ∷ ws) = omega arith
acceptance_lem (suc k ∷ ws) = omega arith

pub scripted-IsPatient : IsPatient scripted (λ w. refusals w.writes)
scripted-IsPatient = record {
  refusal = λ w fd bytes e r. refusal_lem w.writes bytes e r;
  acceptance = λ w fd bytes. acceptance_lem w.writes;
}

-- The same system with a socket on which every write fails.
abbrev pub dead_socket : Os
dead_socket = record scripted { write = λ w fd bytes. (failed (other 32), w) }

-- And one on which no datagram goes out.
abbrev pub dead_network : Os
dead_network = record scripted { sendto = λ w fd bytes to. (failed (other 90), w) }
