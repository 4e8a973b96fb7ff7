-- ===== src/Tests/TcpRecv.antt =====
-- Examples for Tcp/Recv.
use net_lib_wrapper.Prelude.{
  ℕ, ◌≤◌, ◌≡◌, ◌≢◌, refl, true, false, Option, none, some, List, [], ◌∷◌, ◌++◌, arith, Ensures,
  Returns, length, take, length-take,
}
use net_lib_wrapper.Os.{Os, ReadLaws, ReadReply, eagain, econnreset, got, refused}
use net_lib_wrapper.Tcp.Link.{Link, connected}
use net_lib_wrapper.Tcp.Table.{Tcp, received, begin, middle, finish}
use net_lib_wrapper.Tcp.Recv.{on_event_read}
use net_lib_wrapper.Tcp.Recv.Laws.{
  IsBounded, NeverReset, on_event_read-IsBounded, on_event_read-reset,
}
use net_lib_wrapper.Tests.Scripted.{Script, scripted, home, first, rest}

-- A socket with one block of bytes after another, each cut to what is asked for, and then EAGAIN.
abbrev block : Option ReadReply → ℕ → ReadReply
block (some (got bytes)) n = got (take n bytes)
block (some (refused e)) n = refused eagain
block none n = refused eagain

abbrev plain : Os
plain = record scripted {
  read = λ w fd n. (block (first w.reads) n, record w { reads = rest w.reads });
}

block_within :
    (o : Option ReadReply) (n : ℕ) (bytes : List ℕ) → block o n ≡ got bytes → length bytes ≤ n
block_within (some (got bs)) n bytes e =
    let cut : length (take n bs) ≤ n = ground (arith, length-take n bs) in ground arith
block_within (some (refused e')) n bytes e = cc
block_within none n bytes e = cc

block_never : (o : Option ReadReply) (n : ℕ) → block o n ≢ refused econnreset
block_never (some (got bs)) n e = cc
block_never (some (refused e')) n e = cc
block_never none n e = cc

plain-ReadLaws : ReadLaws plain
plain-ReadLaws = record { within = λ w fd n bytes e. block_within (first w.reads) n bytes e }

plain-NeverReset : NeverReset plain
plain-NeverReset = λ w n fd. block_never (first w.reads) n

abbrev reader : Link
reader = record {
  mi_socket = some 7;
  mh_link = 1;
  local_address = home;
  remote_address = home;
  link_type = connected;
  last_alive_time = 10;
  need_check_alive = true;
  send_buff_list = [];
}

abbrev with_reads : List ReadReply → Tcp Script
with_reads rs = record {
  world = record { writes = []; reads = rs; accepts = []; clock = 1000 };
  links = (1, reader) ∷ [];
  i_link = 1;
  send_flag = false;
  events = [];
}

on_event_read-IsBounded_example :
    Ensures
      (λ r.
        IsBounded r.1
        × (r.0.events
            ≡ r.1.tcp.events
              ++ (received r.1.link.mh_link finish r.1.buffer (length r.1.buffer) ∷ [])))
      (on_event_read plain 9 (with_reads (got (1 ∷ 2 ∷ []) ∷ got (3 ∷ []) ∷ [])) reader)
on_event_read-IsBounded_example =
    on_event_read-IsBounded plain 9 (with_reads (got (1 ∷ 2 ∷ []) ∷ got (3 ∷ []) ∷ [])) reader
      plain-ReadLaws plain-NeverReset

on_event_read-reset_example :
    Returns
      (λ r.
        r.0.events
        ≡ received 1 begin [] 0 ∷ received 1 middle [] 0 ∷ received 1 finish [] 4294967295 ∷ [])
      (on_event_read scripted 5 (with_reads (refused econnreset ∷ refused eagain ∷ [])) reader)
on_event_read-reset_example =
    on_event_read-reset scripted 3 (with_reads (refused econnreset ∷ refused eagain ∷ [])) reader
      refl refl
