-- ===== src/Tests/Session.antt =====
-- Examples for Session.
use net_lib_wrapper.Prelude.{ℕ, ◌≡◌, refl, false, some, [], ◌∷◌, length-take, length-drop, arith}
use net_lib_wrapper.Packet.Header.{Packet}
use net_lib_wrapper.Packet.Login.{VerReqBody}
use net_lib_wrapper.Frame.Parse.{zeros}
use net_lib_wrapper.Tcp.Table.{Event}
use net_lib_wrapper.Session.Client.{Secrets, Client, new_client}
use net_lib_wrapper.Session.Client.Login.{Conversation, login-Conversation}
use net_lib_wrapper.Session.Manager.{
  LinkMgr, on_tcp_closed, on_tcp_accepted, tcp_io_callback, on_recv, link_recv_data,
}
use net_lib_wrapper.Session.Manager.Listing.{lists, Told, nothing, next, Told-listed}
use net_lib_wrapper.Session.Manager.Mixing.{on_recv-mixed}
use net_lib_wrapper.Tests.Scripted.{scripted}
use net_lib_wrapper.Tests.TcpTable.{four_links}
use net_lib_wrapper.Tests.Frame.{
  header_of, login_bytes, login, front, back, cut-IsFrame, login_bytes_size, cut_size, ones,
}

abbrev version : ℕ → Packet VerReqBody
version n = record { header = header_of 1; body = record { ui_major_ver = n; ui_sub_ver = 0 } }

-- Digests of zeros, on one day.
abbrev secrets : Secrets
secrets = record {
  get_md5 = λ s. zeros 16;
  localtime = λ t. record { tm_year = 126; tm_mon = 10; tm_mday = 25 };
}

-- A client on link 9.
abbrev client : Client
client = record (new_client (49 ∷ []) 8899) { mh_tcp_link = 9 }

login-Conversation_example :
    Conversation secrets 1000 9 client (record client { mui_client_id = 1 })
unfolding new_client
login-Conversation_example = login-Conversation secrets 1000 client (λ s. refl)

-- A manager that listens on link 1.
abbrev no_users : LinkMgr
no_users = record { link_map = []; mh_tcp_link = 1; mv_recv_buf = [] }

-- Links 2 and 3 are accepted, and 2 is closed.
abbrev one_user : LinkMgr
one_user = on_tcp_closed 2 (on_tcp_accepted 3 (on_tcp_accepted 2 no_users four_links) four_links)

one_user-Told :
    Told scripted no_users (Event.accepted 1 2 ∷ Event.accepted 1 3 ∷ Event.closed 2 ∷ []) one_user
unfolding tcp_io_callback
one_user-Told = next ones 0 (Event.accepted 1 2) four_links four_links refl (
    next ones 0 (Event.accepted 1 3) four_links four_links refl
      (next ones 0 (Event.closed 2) four_links four_links refl nothing))

Told-listed_example : lists 2 one_user ≡ false
Told-listed_example =
    Told-listed scripted {mgr = no_users} 2 (λ e. absurd (omega (arith, e))) tt one_user-Told

on_recv-mixed_example :
    let held = record no_users { mv_recv_buf = front 30 } in
    (on_recv scripted ones 2 2 (front 30) no_users four_links ≡ some (held, four_links))
    × (on_recv scripted ones 2 3 (back 30) held four_links
        ≡ some (
          record no_users { mv_recv_buf = [] },
          (link_recv_data scripted 3 login held four_links).1,
        ))
on_recv-mixed_example =
    on_recv-mixed scripted ones (front 30) (back 30) login 0 2 3 no_users four_links four_links refl
      (cut-IsFrame 30) (omega (arith, length-take 30 login_bytes, login_bytes_size))
      (omega (arith, length-drop 30 login_bytes, login_bytes_size)) (omega (arith, cut_size 30))
