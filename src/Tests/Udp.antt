-- ===== src/Tests/Udp.antt =====
-- Examples for Udp.
use net_lib_wrapper.Prelude.{ℕ, ◌≡◌, refl, true, some, List, [], ◌∷◌, ◌++◌, arith, length}
use net_lib_wrapper.Os.{other}
use net_lib_wrapper.Udp.Link.{Datagram, UdpLink, Udp}
use net_lib_wrapper.Udp.Send.{flush}
use net_lib_wrapper.Udp.Order.{waiting, flush-waiting, passes, passes-blocked}
use net_lib_wrapper.Tests.Scripted.{Script, scripted, dead_network, home}

abbrev world : List ℕ → Script
world ws = record { writes = ws; reads = []; accepts = []; clock = 1000 }

abbrev datagram : List ℕ → Datagram
datagram d = record { p_data = some d; ui_size = length d; dst_addr = home }

abbrev three : List Datagram
three = datagram (1 ∷ 2 ∷ []) ∷ datagram [] ∷ datagram (3 ∷ []) ∷ []

-- The first is taken, the second has no data, and the third is refused.
flush_run :
    flush scripted (some 7) three (world (2 ∷ 0 ∷ []))
    ≡ record { queue = datagram (3 ∷ []) ∷ []; sent = (1 ∷ 2 ∷ [], home) ∷ []; world = world [] }
unfolding flush
flush_run = refl

flush-waiting_example :
    let r = flush scripted (some 7) three (world (2 ∷ 0 ∷ [])) in
    r.sent ++ waiting r.queue ≡ waiting three
flush-waiting_example = flush-waiting scripted (some 7) three (world (2 ∷ 0 ∷ []))

passes-blocked_example :
    passes dead_network 5 (some 7) (datagram (1 ∷ []) ∷ datagram (2 ∷ []) ∷ []) (world []) ≡ []
passes-blocked_example =
    passes-blocked dead_network 5 (some 7) (1 ∷ []) 1 home (datagram (2 ∷ []) ∷ []) (world [])
      (omega arith) (λ w. (other 90, refl))

abbrev udp_link : UdpLink
udp_link = record {
  mi_socket = some 7;
  mh_link = 1;
  mi_create_flag = 1;
  local_address = home;
  remote_address = home;
  send_buff_list = three;
}

abbrev busy : Udp Script
busy = record {
  world = world (2 ∷ 0 ∷ []);
  links = (1, udp_link) ∷ [];
  i_link = 1;
  send_flag = true;
  events = [];
}
