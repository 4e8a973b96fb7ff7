-- ===== src/Udp/Order.antt =====
-- What the passes over the datagrams of links send.
use net_lib_wrapper.Prelude.{
  ℕ, zero, suc, ◌<◌, ◌≡◌, ◌⊎◌, refl, ap, inl, inr, Bool, false, not, ◌||◌, none, some, List, [],
  ◌∷◌, ◌++◌, arith, ◌==◌, if◌then◌else◌, Bool-cases, Option-cases, take,
}
use net_lib_wrapper.Os.{Os, Errno, Reply, Fd, Address, done, failed}
use net_lib_wrapper.Udp.Link.{Datagram, UdpLink, Udp}
use net_lib_wrapper.Udp.Send.{flush, flush_links, do_send_buff, is_empty}

-- The datagrams that wait, without those that have no data.
unfoldable pub waiting : List Datagram → List (List ℕ × Address)
waiting [] = []
waiting (b ∷ bs) =
    let rest = waiting bs in
    elim b.p_data [
      | none ↦ rest
      | some p_data ↦ if b.ui_size == 0 then rest else (take b.ui_size p_data, b.dst_addr) ∷ rest
    ]

Reply-cases :
    (r : Reply) → ((e : Errno) × (r ≡ failed e)) ⊎ ((k : ℕ) × ((e : Errno) × (r ≡ done k e)))
Reply-cases (done k e) = inr (k, (e, refl))
Reply-cases (failed e) = inl (e, refl)

-- Some link has datagrams in its list.
abbrev pub any_waiting : List (ℕ × UdpLink) → Bool
any_waiting [] = false
any_waiting ((h, l) ∷ m) = not (is_empty l.send_buff_list) || any_waiting m

module _ (os : Os) where
  -- A pass over a link's datagrams loses none and changes no order: what it sent, then what waits
  -- after it, is what waited.
  pub flush-waiting :
      (fd : Fd) (queue : List Datagram) (w : os.World)
      → let r = flush os fd queue w in r.sent ++ waiting r.queue ≡ waiting queue
  unfolding flush waiting
  flush-waiting fd [] w = refl
  flush-waiting fd (b ∷ bs) w = elim (Option-cases b.p_data) [
    | inl missing ↦ rw (missing, flush, waiting) (flush-waiting fd bs w)
    | inr (p_data, there) ↦
        let bytes = take b.ui_size p_data in
        elim (Bool-cases (b.ui_size == 0)) [
          | inl empty ↦ rw (there, flush, waiting, empty) (flush-waiting fd bs w)
          | inr full ↦ elim (Reply-cases (os.sendto w fd bytes b.dst_addr).0) [
            | inl (e, r) ↦ rw (there, flush, waiting, full, r, there, full) refl
            | inr (k, (e, r)) ↦
                rw (there, flush, waiting, full, r)
                  (ap (λ (t : List (List ℕ × Address)). (bytes, b.dst_addr) ∷ t)
                    (flush-waiting fd bs (os.sendto w fd bytes b.dst_addr).1))
          ]
        ]
  ]

  -- The world after so many passes over one link.
  abbrev pub passes : ℕ → Fd → List Datagram → os.World → List (List ℕ × Address)
  passes zero fd queue w = []
  passes (suc n) fd queue w = let r = flush os fd queue w in r.sent ++ passes n fd r.queue r.world

  -- A datagram that the system refuses each time, as one that is too long, is tried first in every
  -- pass, and nothing behind it is ever sent.
  pub passes-blocked :
      (n : ℕ) (fd : Fd) (p_data : List ℕ) (ui_size : ℕ) (dst_addr : Address) (bs : List Datagram)
      (w : os.World)
      → 0 < ui_size
      → ((w : os.World)
          → (e : Errno) × ((os.sendto w fd (take ui_size p_data) dst_addr).0 ≡ failed e))
      → passes n fd (record { p_data = some p_data; ui_size = ui_size; dst_addr = dst_addr } ∷ bs) w
        ≡ []
  unfolding flush
  passes-blocked zero fd p_data ui_size dst_addr bs w pos dead = refl
  passes-blocked (suc n) fd p_data ui_size dst_addr bs w pos dead =
      let b : Datagram = record { p_data = some p_data; ui_size = ui_size; dst_addr = dst_addr } in
      let (e, r) = dead w in
      let full : (ui_size == 0) ≡ false = ground arith in
      let next = (os.sendto w fd (take ui_size p_data) dst_addr).1 in
      let round : flush os fd (b ∷ bs) w ≡ record { queue = b ∷ bs; sent = []; world = next } =
        rw (full, r) refl in
      rw round (passes-blocked n fd p_data ui_size dst_addr bs next pos dead)

  flush_links-flag :
      (m : List (ℕ × UdpLink)) (w : os.World)
      → (flush_links os m w).send_flag ≡ any_waiting (flush_links os m w).links
  unfolding flush_links
  flush_links-flag [] w = refl
  flush_links-flag ((h, l) ∷ m) w =
      ap (λ (b : Bool). not (is_empty (flush os l.mi_socket l.send_buff_list w).queue) || b)
        (flush_links-flag m (flush os l.mi_socket l.send_buff_list w).world)

  -- If the flag was up whenever a link had datagrams in its list, then after do_send_buff it is up
  -- exactly if some link has.
  pub do_send_buff-waiting :
      (t : Udp os.World)
      → (t.send_flag ≡ false → any_waiting t.links ≡ false)
      → let t' = (do_send_buff os t).0 in t'.send_flag ≡ any_waiting t'.links
  unfolding do_send_buff
  do_send_buff-waiting t noticed = elim (Bool-cases t.send_flag) [
    | inl up ↦ rw up (flush_links-flag t.links t.world)
    | inr down ↦ rw (down, noticed down) refl
  ]
