-- ===== src/Tcp/Invariant/Events.antt =====
-- on_event_accept, on_event_connected and on_event_read keep the map of links sound.
use net_lib_wrapper.Prelude.{
  ℕ, ◌+◌, ◌≡◌, refl, false, Option, none, some, List, [], ◌∷◌, arith, Option-cases, inl, inr,
  Ensures, Carries, iterate, iterate-Ensures,
}
use net_lib_wrapper.Os.{
  Os, Fd, Address, ReadReply, got, refused, eagain, eintr, econnreset, einprogress, other,
}
use net_lib_wrapper.Tcp.Link.{Link, connected}
use net_lib_wrapper.Tcp.Table.{
  Tcp, find_link, send_event, add_tcp_link, del_link, link_destroy, new_link, received, begin,
  middle, finish,
}
use net_lib_wrapper.Tcp.Accept.{
  take_socket, accept_link, enter_link, accept_once, on_event_accept, on_event_connected,
}
use net_lib_wrapper.Tcp.Recv.{
  Reading, reported_size, step_back, step_forward, after_read, read_once, recv_end, on_event_read,
}
use net_lib_wrapper.Tcp.Invariant.{IsKept, IsSane}
use net_lib_wrapper.Tcp.Invariant.Table.{
  IsKept-weaken, IsKept-drop, store-IsSane, add_tcp_link-IsSane, del_link-IsSane,
}

-- The map is sound, and the link that the handler holds is as it should be.
pub record IsHeld {W : Type 0} (dead h : ℕ) (l : Link) (t : Tcp W) : Type 0 where
  pub sane : IsSane dead t
  pub kept : IsKept dead t.send_flag t.i_link h l

step_forward_same :
    {W : Type 0} (bytes : List ℕ) (s : Reading W)
    → ((step_forward bytes s).link ≡ s.link) × ((step_forward bytes s).tcp ≡ s.tcp)
unfolding step_forward
step_forward_same bytes s = ground arith

step_back_same :
    {W : Type 0} (s : Reading W) → ((step_back s).link ≡ s.link) × ((step_back s).tcp ≡ s.tcp)
unfolding step_back
step_back_same s = ground arith

module _ (os : Os) where
  take_socket-buffers :
      (w : os.World) (fd : ℕ) (peer : Address) (name : Option Address)
      → Ensures (λ l. l.send_buff_list ≡ []) (take_socket os w fd peer name).0
  unfolding take_socket new_link
  take_socket-buffers w fd peer none = tt
  take_socket-buffers w fd peer (some name) = refl

  accept_link-buffers :
      (w : os.World) (fd : Fd) → Ensures (λ l. l.send_buff_list ≡ []) (accept_link os w fd).0
  unfolding accept_link
  accept_link-buffers w fd = elim (Option-cases (os.accept w fd).0) [
    | inl nobody ↦ rw (nobody, accept_link) tt
    | inr (c, there) ↦ rw (there, accept_link) (take_socket-buffers _ c.0 c.1 _)
  ]

  enter_link-IsHeld :
      {dead : ℕ} (st_time h : ℕ) (listener l : Link) (t : Tcp os.World)
      → l.send_buff_list ≡ []
      → IsHeld dead h listener t
      → IsHeld dead h listener (enter_link os st_time listener.mh_link t l)
  unfolding enter_link add_tcp_link send_event
  enter_link-IsHeld st_time h listener l t e held = record {
    sane = add_tcp_link-IsSane t (record l { last_alive_time = st_time }) e held.sane;
    kept =
        IsKept-weaken t.send_flag t.send_flag t.i_link (t.i_link + 1) h listener (omega arith)
          (λ d. d) held.kept;
  }

  accept_once-Carries :
      {dead : ℕ} (st_time h : ℕ) (listener : Link) (t : Tcp os.World)
      → IsHeld dead h listener t
      → Carries (IsHeld dead h listener) (accept_once os st_time listener t)
  unfolding accept_once
  accept_once-Carries st_time h listener t held =
      elim (Option-cases (accept_link os t.world listener.mi_socket).0) [
        | inl nobody ↦ rw (nobody, accept_once) (record { sane = held.sane; kept = held.kept })
        | inr (l, there) ↦
            let e : l.send_buff_list ≡ [] =
              rw there at (accept_link-buffers t.world listener.mi_socket) in
            rw (there, accept_once)
              (enter_link-IsHeld st_time h listener l _ e
                (record { sane = held.sane; kept = held.kept }))
      ]

  pub on_event_accept-IsSane :
      {dead : ℕ} (fuel h : ℕ) (t : Tcp os.World) (listener : Link)
      → IsKept dead t.send_flag t.i_link h listener
      → IsSane dead t
      → Ensures (IsSane dead) (on_event_accept os fuel t listener)
  unfolding on_event_accept
  on_event_accept-IsSane {dead} fuel h t listener k s =
      elim (Option-cases (iterate fuel (accept_once os (os.time t.world) listener) t)) [
        | inl out ↦ rw (out, on_event_accept) tt
        | inr (t', there) ↦
            let held : IsHeld dead h listener t' = rw there at (
              iterate-Ensures (IsHeld dead h listener) (accept_once os (os.time t.world) listener)
                (λ t' held. accept_once-Carries (os.time t.world) h listener t' held) fuel t
                (record { sane = s; kept = k })) in
            let l' : Link = record listener { last_alive_time = os.time t.world } in
            let k' : IsKept dead t'.send_flag t'.i_link h l' = record {
              key = held.kept.key;
              given = held.kept.given;
              apart = held.kept.apart;
              whole = held.kept.whole;
              idle = held.kept.idle;
            } in
            rw (there, on_event_accept) (store-IsSane t' h l' k' held.sane)
      ]

  pub on_event_connected-IsSane :
      {dead : ℕ} (h : ℕ) (t : Tcp os.World) (l : Link)
      → IsKept dead t.send_flag t.i_link h l
      → IsSane dead t
      → IsSane dead (on_event_connected os t l)
  unfolding on_event_connected
  on_event_connected-IsSane h t l k s =
      store-IsSane t h (record l { link_type = connected; last_alive_time = os.time t.world })
        (record { key = k.key; given = k.given; apart = k.apart; whole = k.whole; idle = k.idle }) s

  del_link-same :
      (t : Tcp os.World) (h : ℕ)
      → ((del_link os t h).1.send_flag ≡ t.send_flag) × ((del_link os t h).1.i_link ≡ t.i_link)
  unfolding del_link find_link
  del_link-same t h = ground arith

  del_link-IsKept :
      {dead : ℕ} (t : Tcp os.World) (h : ℕ) (l l' : Link)
      → l'.mh_link ≡ l.mh_link
      → l'.send_buff_list ≡ []
      → IsKept dead t.send_flag t.i_link h l
      → let t' = (del_link os t l.mh_link).1 in IsKept dead t'.send_flag t'.i_link h l'
  del_link-IsKept t h l l' same empty k =
      let (flag, counter) = del_link-same t l.mh_link in
      rw (flag, counter) (IsKept-drop t.send_flag t.i_link h l l' same empty k)

  -- The link that a destruction leaves has no buffers, and the flag and the counter stay.
  link_destroy-IsHeld :
      {dead : ℕ} (h : ℕ) (l : Link) (t : Tcp os.World)
      → IsHeld dead h l t
      → let r = link_destroy os t l in IsHeld dead h r.0 r.1
  unfolding link_destroy send_event
  link_destroy-IsHeld {dead} h l t held =
      let s : IsSane dead (del_link os t l.mh_link).1 = del_link-IsSane os t l.mh_link held.sane in
      let k = λ (l' : Link) (same : l'.mh_link ≡ l.mh_link) (empty : l'.send_buff_list ≡ []).
        del_link-IsKept t h l l' same empty held.kept in
      elim (Option-cases l.mi_socket) [
        | inl shut ↦ rw (shut, link_destroy) (record { sane = s; kept = k _ refl refl })
        | inr (fd, there) ↦ rw (there, link_destroy) (record { sane = s; kept = k _ refl refl })
      ]

  after_read-Carries :
      {dead : ℕ} (h : ℕ) (s : Reading os.World) (w : os.World) (reply : ReadReply)
      → IsHeld dead h s.link s.tcp
      → Carries (λ s. IsHeld dead h s.link s.tcp) (after_read os s w reply)
  unfolding after_read send_event step_forward step_back
  after_read-Carries h s w (got []) held =
      link_destroy-IsHeld h s.link _ (record { sane = held.sane; kept = held.kept })
  after_read-Carries h s w (got (b ∷ bs)) held =
      let t = send_event (record s.tcp { world = w }) (received s.link.mh_link middle [] 0) in
      let (link, tcp) = step_forward_same (b ∷ bs) (record s { tcp = t }) in
      rw (link, tcp) (record { sane = held.sane; kept = held.kept })
  after_read-Carries h s w (refused econnreset) held =
      let t = send_event (record s.tcp { world = w }) (received s.link.mh_link middle [] 0) in
      let (link, tcp) = step_back_same (record s { tcp = t }) in
      rw (link, tcp) (record { sane = held.sane; kept = held.kept })
  after_read-Carries h s w (refused eintr) held = record { sane = held.sane; kept = held.kept }
  after_read-Carries h s w (refused eagain) held = record { sane = held.sane; kept = held.kept }
  after_read-Carries h s w (refused einprogress) held = record {
    sane = held.sane;
    kept = held.kept;
  }
  after_read-Carries h s w (refused (other n)) held = record { sane = held.sane; kept = held.kept }

  recv_end-IsSane :
      {dead : ℕ} (h : ℕ) (r : Reading os.World)
      → IsHeld dead h r.link r.tcp
      → IsSane dead (recv_end os r)
  unfolding recv_end
  recv_end-IsSane h r held =
      let size = reported_size r.buffer r.below in
      let t = send_event r.tcp (received r.link.mh_link finish r.buffer size) in
      store-IsSane t h (record r.link { last_alive_time = os.time t.world })
        (record {
          key = held.kept.key;
          given = held.kept.given;
          apart = held.kept.apart;
          whole = held.kept.whole;
          idle = held.kept.idle;
        })
        held.sane

  pub on_event_read-IsSane :
      {dead : ℕ} (fuel h : ℕ) (t : Tcp os.World) (l : Link)
      → IsKept dead t.send_flag t.i_link h l
      → IsSane dead t
      → Ensures (λ r. IsSane dead r.0) (on_event_read os fuel t l)
  unfolding on_event_read read_once send_event
  on_event_read-IsSane {dead} fuel h t l k s =
      let t' = send_event t (received l.mh_link begin [] 0) in
      let start : Reading os.World = record {
        tcp = t';
        link = l;
        buffer = [];
        below = 0;
        fault = false;
      } in
      elim (Option-cases (iterate fuel (read_once os) start)) [
        | inl out ↦ rw (out, on_event_read) tt
        | inr (r, there) ↦
            let held : IsHeld dead h r.link r.tcp = rw there at (
              iterate-Ensures (λ r. IsHeld dead h r.link r.tcp) (read_once os)
                (λ r held. after_read-Carries h r _ _ held) fuel start
                (record { sane = s; kept = k })) in
            rw (there, on_event_read) (recv_end-IsSane h r held)
      ]
