-- ===== src/Epoll/Worker/Laws.antt =====
-- How events find their links, and what a disconnection does.
use net_lib_wrapper.Prelude.{
  ℕ, ◌^◌, ◌<◌, ◌≡◌, refl, true, none, some, [], ◌∷◌, ◌++◌, arith, ◌==◌, if◌then◌else◌,
}
use net_lib_wrapper.Os.{Os, Fd}
use net_lib_wrapper.Prelude.Assoc
use net_lib_wrapper.Prelude.Assoc.{find, find-modify, find-erase, modify-IsSorted, IsSorted}
use net_lib_wrapper.Epoll.Defs.{event_data, data_link, data_fd, fd_bits, is_disconnected}
use net_lib_wrapper.Epoll.Worker.{on_disconnected, on_link_event}
use net_lib_wrapper.Tcp.Link.{Link}
use net_lib_wrapper.Tcp.Table.{Tcp, disconnected, send_event, find_link, store, del_link}

-- What a link with a handle of 32 bits registers comes back with its events: the handle, and the
-- descriptor as 32 bits.
pub data_link-event_data :
    (h_link : ℕ) (fd : Fd)
    → h_link < 2 ^ 32
    → (data_link (event_data h_link fd) ≡ h_link) × (data_fd (event_data h_link fd) ≡ fd_bits fd)
unfolding data_link data_fd event_data
data_link-event_data h none lt = omega arith
data_link-event_data h (some fd) lt = omega arith

module _ (os : Os) where
  -- A link that a disconnection finds in the map.
  on_disconnected-there :
      (t : Tcp os.World) (h' : ℕ) (l : Link)
      → IsSorted t.links
      → find l.mh_link t.links ≡ some l
      → ((on_disconnected os t l.mh_link l).events ≡ t.events ++ (disconnected l.mh_link ∷ []))
        × (find h' (on_disconnected os t l.mh_link l).links
            ≡ (if l.mh_link == h' then none else find h' t.links))
  unfolding on_disconnected store send_event del_link find_link
  on_disconnected-there t h' l s there =
      let h = l.mh_link in
      let emptied = record l { send_buff_list = [] } in
      let m = Assoc.modify h (λ _. emptied) t.links in
      let here : find h m ≡ some emptied =
        ground (arith, find-modify h h (λ _. emptied) t.links, there) in
      let gone : find h' (Assoc.erase h m) ≡ (if h == h' then none else find h' t.links) = ground (
        arith,
        find-erase h h' m (modify-IsSorted h (λ _. emptied) t.links s),
        find-modify h h' (λ _. emptied) t.links,
      ) in
      rw (here, on_disconnected, del_link) (refl, gone)

  -- An event with one of the bits EPOLLERR, EPOLLHUP and EPOLLRDHUP for a link that stands in the
  -- map, which is in order, under its own handle: the user is told once, the link is gone, and the
  -- lookup of every other link is as before.
  pub on_link_event-disconnected :
      (fuel : ℕ) (t : Tcp os.World) (l : Link) (ui_event h' : ℕ) (fd : Fd)
      → IsSorted t.links
      → l.mh_link < 2 ^ 32
      → find_link t l.mh_link ≡ some l
      → is_disconnected ui_event ≡ true
      → (t' : Tcp os.World) × (on_link_event os fuel t
            (record { events = ui_event; data64 = event_data l.mh_link fd })
          ≡ some t')
        × (t'.events ≡ t.events ++ (disconnected l.mh_link ∷ []))
        × (find_link t' h' ≡ (if l.mh_link == h' then none else find_link t h'))
  unfolding on_link_event find_link
  on_link_event-disconnected fuel t l ui_event h' fd s lt there gone =
      let (back, _) = data_link-event_data l.mh_link fd lt in
      let (told, left) = on_disconnected-there t h' l s there in
      (
        on_disconnected os t l.mh_link l,
        rw (back, there, on_link_event, gone, back) refl,
        told,
        left,
      )
