-- ===== src/Tests/TcpTable.antt =====
-- Examples for Tcp/Table and Epoll/Worker.
use net_lib_wrapper.Prelude.{ℕ, ◌+◌, ◌≡◌, refl, true, false, none, some, [], ◌∷◌, arith}
use net_lib_wrapper.Prelude.Assoc.{find}
use net_lib_wrapper.Tcp.Link.{Link, LinkType, listen, connected}
use net_lib_wrapper.Tcp.Table.{Tcp, is_listen, check_link_timeout}
use net_lib_wrapper.Tcp.Table.Removal.{IsTable, check_link_timeout-find}
use net_lib_wrapper.Tests.Scripted.{Script, scripted, home}

abbrev quiet : Script
quiet = record { writes = []; reads = []; accepts = []; clock = 1000 }

abbrev link_with : ℕ → LinkType → ℕ → Link
link_with h kind time = record {
  mi_socket = some (h + 6);
  mh_link = h;
  local_address = home;
  remote_address = home;
  link_type = kind;
  last_alive_time = time;
  need_check_alive = true;
  send_buff_list = [];
}

-- A listening link and three others: silent for too long, heard of lately, and from the future.
abbrev pub four_links : Tcp Script
four_links = record {
  world = quiet;
  links =
      (1, link_with 1 listen 0)
      ∷ (2, link_with 2 connected 600)
      ∷ (3, link_with 3 connected 900)
      ∷ (4, link_with 4 connected 2000)
      ∷ [];
  i_link = 4;
  send_flag = false;
  events = [];
}

pub four_links-IsTable : IsTable four_links
four_links-IsTable = record {
  sorted = (omega arith, (omega arith, (omega arith, tt)));
  keys = (refl, (refl, (refl, (refl, tt))));
}

check_link_timeout-find_example : find 2 (check_link_timeout scripted four_links).links ≡ none
unfolding find is_listen
check_link_timeout-find_example = check_link_timeout-find scripted four_links 2 four_links-IsTable
