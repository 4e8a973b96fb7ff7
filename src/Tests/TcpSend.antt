-- ===== src/Tests/TcpSend.antt =====
-- Examples for Tcp/Send and Tcp/Output.
use net_lib_wrapper.Prelude.{
  ℕ, ◌≡◌, refl, true, false, none, some, List, [], ◌∷◌, ◌++◌, arith, Ensures, Returns, length,
  iterate, All,
}
use net_lib_wrapper.Os.{other}
use net_lib_wrapper.Tcp.Link.{Link, SendBuff, connected, pending, IsShort}
use net_lib_wrapper.Tcp.Send.{drain}
use net_lib_wrapper.Tcp.Send.Stream.{IsStream, drain-IsStream}
use net_lib_wrapper.Tcp.Send.Halting.{drain-Returns, drain-dead}
use net_lib_wrapper.Tcp.Table.{Tcp}
use net_lib_wrapper.Tcp.Output.{link_send, flush_links, SendResult}
use net_lib_wrapper.Tcp.Output.Order.{
  link_send-IsAccepted, link_send-in_order, link_send-overtakes, flush_links-Streams, IsAccepted,
  Streams, AreWhole, AreShort,
}
use net_lib_wrapper.Tests.Scripted.{
  Script, scripted, scripted-WriteLaws, scripted-IsPatient, dead_socket, home,
}

abbrev world : List ℕ → Script
world ws = record { writes = ws; reads = []; accepts = []; clock = 1000 }

abbrev buff : List ℕ → SendBuff
buff d = record { p_data = some d; ui_size = length d }

abbrev link_of : List SendBuff → Link
link_of q = record {
  mi_socket = some 7;
  mh_link = 1;
  local_address = home;
  remote_address = home;
  link_type = connected;
  last_alive_time = 10;
  need_check_alive = true;
  send_buff_list = q;
}

-- Two buffers; the socket takes two bytes, refuses once, then takes one byte more.
drain_run :
    drain scripted 9 (some 7) (buff (1 ∷ 2 ∷ 3 ∷ []) ∷ buff (4 ∷ []) ∷ []) (world (2 ∷ 0 ∷ []))
    ≡ some (record {
      queue = buff (3 ∷ []) ∷ buff (4 ∷ []) ∷ [];
      bytes = 1 ∷ 2 ∷ [];
      world = world [];
    })
unfolding drain iterate
drain_run = refl

drain-IsStream_example :
    Ensures
      (λ d. IsStream (1 ∷ 2 ∷ 3 ∷ 4 ∷ []) d × All IsShort d.queue)
      (drain scripted 9 (some 7) (buff (1 ∷ 2 ∷ 3 ∷ []) ∷ buff (4 ∷ []) ∷ []) (world (2 ∷ 0 ∷ [])))
drain-IsStream_example =
    drain-IsStream scripted 9 (some 7) (buff (1 ∷ 2 ∷ 3 ∷ []) ∷ buff (4 ∷ []) ∷ [])
      (world (2 ∷ 0 ∷ [])) scripted-WriteLaws (refl, (refl, tt)) (omega arith, (omega arith, tt))

drain-Returns_example :
    Returns
      (λ _. Unit {0})
      (drain scripted 5 (some 7) (buff (1 ∷ 2 ∷ []) ∷ []) (world (0 ∷ 0 ∷ [])))
drain-Returns_example =
    drain-Returns scripted _ 5 (some 7) (buff (1 ∷ 2 ∷ []) ∷ []) (world (0 ∷ 0 ∷ []))
      scripted-WriteLaws scripted-IsPatient (refl, tt) (omega arith)

drain-dead_example : drain dead_socket 100 (some 7) (buff (1 ∷ []) ∷ []) (world []) ≡ none
drain-dead_example =
    drain-dead dead_socket (some 7) (λ w bytes. (other 32, refl)) 100 (buff (1 ∷ [])) [] (1 ∷ [])
      (world []) refl (omega arith)

-- Three bytes to a socket with room for one.
abbrev cut_message : SendResult Script
cut_message = link_send scripted (link_of []) false (world (1 ∷ [])) (some (5 ∷ 6 ∷ 7 ∷ [])) 3

link_send-IsAccepted_example : IsAccepted (5 ∷ 6 ∷ 7 ∷ []) (link_of []) cut_message
unfolding link_send
link_send-IsAccepted_example =
    link_send-IsAccepted scripted (link_of []) false (world (1 ∷ [])) (5 ∷ 6 ∷ 7 ∷ [])
      scripted-WriteLaws refl

link_send-in_order_example :
    cut_message.bytes ++ pending cut_message.link.send_buff_list ≡ 5 ∷ 6 ∷ 7 ∷ []
unfolding link_send
link_send-in_order_example =
    link_send-in_order scripted (link_of []) false (world (1 ∷ [])) (5 ∷ 6 ∷ 7 ∷ [])
      scripted-WriteLaws refl refl

-- The bytes 1 and 2 wait, and the message 9 goes out before them.
abbrev late_message : SendResult Script
late_message =
    link_send scripted (link_of (buff (1 ∷ 2 ∷ []) ∷ [])) true (world []) (some (9 ∷ [])) 1

link_send-overtakes_example :
    late_message.bytes ++ pending late_message.link.send_buff_list ≡ 9 ∷ 1 ∷ 2 ∷ []
link_send-overtakes_example =
    link_send-overtakes scripted (link_of (buff (1 ∷ 2 ∷ []) ∷ [])) true (world []) (9 ∷ []) _
      (omega arith) refl

abbrev two_links : List (ℕ × Link)
two_links = (1, link_of (buff (1 ∷ 2 ∷ []) ∷ [])) ∷ (2, link_of (buff (3 ∷ []) ∷ [])) ∷ []

flush_links-Streams_example :
    Ensures
      (λ f.
        Streams scripted two_links f.links f.bytes
        × (AreWhole scripted f.links × AreShort scripted f.links))
      (flush_links scripted 9 two_links (world (1 ∷ 0 ∷ [])))
flush_links-Streams_example =
    flush_links-Streams scripted 9 two_links (world (1 ∷ 0 ∷ [])) scripted-WriteLaws
      ((refl, tt), ((refl, tt), tt)) ((omega arith, tt), ((omega arith, tt), tt))

abbrev busy : Tcp Script
busy = record {
  world = world (1 ∷ 0 ∷ []);
  links = two_links;
  i_link = 2;
  send_flag = true;
  events = [];
}
