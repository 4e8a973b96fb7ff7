-- ===== src/Tests/System.antt =====
-- Examples for Epoll/System.
use net_lib_wrapper.Prelude.{◌≤◌, ◌≡◌, ◌⊎◌, refl, true, false, none, some, [], ◌∷◌, arith, All}
use net_lib_wrapper.Prelude.Assoc.{find, insert, modify, erase}
use net_lib_wrapper.Tcp.Link.{Link, IsWhole, null}
use net_lib_wrapper.Tcp.Table.{Tcp, find_link}
use net_lib_wrapper.Tcp.Api.{ms_tcp_create, ms_tcp_destroy, ms_tcp_send}
use net_lib_wrapper.Epoll.System.{Step, Reach, start}
use net_lib_wrapper.Epoll.System.Laws.{Reach-IsKept, Reach-retired}
use net_lib_wrapper.Tests.Scripted.{Script, scripted, scripted-WriteLaws, home}

-- The kernel takes one byte of the first write.
abbrev slow : Script
slow = record { writes = 1 ∷ []; reads = []; accepts = []; clock = 1000 }

abbrev made : Tcp Script
made = (ms_tcp_create scripted (start slow) none 8899).1

abbrev sent : Tcp Script
sent = (ms_tcp_send scripted made 1 (some (5 ∷ 6 ∷ 7 ∷ [])) 3).1

sent-Reach : Reach scripted (start slow) sent
sent-Reach =
    Reach.later (Reach.later Reach.here (Step.create none 8899))
      (Step.send 1 (some (5 ∷ 6 ∷ 7 ∷ [])) 3 (omega arith))

abbrev sent_link : Link
sent_link = record {
  mi_socket = some 7;
  mh_link = 1;
  local_address = home;
  remote_address = record { ip = 0; port = 0 };
  link_type = null;
  last_alive_time = 1000;
  need_check_alive = false;
  send_buff_list = record { p_data = some (6 ∷ 7 ∷ []); ui_size = 2 } ∷ [];
}

Reach-IsKept_example :
    (sent_link.mh_link ≡ 1)
    × (1 ≤ sent.i_link)
    × All IsWhole sent_link.send_buff_list
    × ((sent.send_flag ≡ true) ⊎ (sent_link.send_buff_list ≡ []))
unfolding ms_tcp_create ms_tcp_send find insert modify
Reach-IsKept_example =
    Reach-IsKept scripted slow sent 1 sent_link scripted-WriteLaws sent-Reach refl

-- The link is closed, and another one is made: it gets the handle 2.
abbrev closed_link : Tcp Script
closed_link = (ms_tcp_destroy scripted made 1).1

abbrev made_again : Tcp Script
made_again = (ms_tcp_create scripted closed_link none 8899).1

Reach-retired_example : find_link made_again 1 ≡ none
unfolding ms_tcp_create ms_tcp_destroy find_link find insert erase
Reach-retired_example =
    Reach-retired scripted slow closed_link made_again 1 scripted-WriteLaws
      (Reach.later (Reach.later Reach.here (Step.create none 8899)) (Step.destroy 1)) (omega arith)
      refl (Reach.later Reach.here (Step.create none 8899)) (omega arith)
