-- ===== src/Tcp/Recv/Laws.antt =====
-- What on_event_read hands to the callback.
use net_lib_wrapper.Prelude.{
  ℕ, suc, ◌+◌, ◌-◌, ◌≤◌, ◌≡◌, ◌≢◌, refl, inl, inr, false, Option, List, [], ◌∷◌, ◌++◌, arith,
  length, length-append, leave, iterate, Carries, iterate-Ensures, Ensures, Returns, Option-cases,
}
use net_lib_wrapper.Os.{
  Os, ReadLaws, ReadReply, eagain, eintr, econnreset, einprogress, other, got, refused,
}
use net_lib_wrapper.Epoll.Defs.{del_epoll_read}
use net_lib_wrapper.Tcp.Link.{Link}
use net_lib_wrapper.Tcp.Table.{
  Tcp, received, begin, middle, finish, send_event, link_destroy, store,
}
use net_lib_wrapper.Tcp.Recv.{
  Reading, after_read, read_once, on_event_read, recv_end, reported_size, recv_buff_size,
  step_forward,
}

-- The buffer holds `i_recv_size` bytes, within its size.
pub record IsBounded {W : Type 0} (s : Reading W) : Type 0 where
  pub fits : length s.buffer ≤ recv_buff_size
  pub above : s.below ≡ 0
  pub sound : s.fault ≡ false

-- A system that never reports ECONNRESET from a read.
abbrev pub NeverReset : Os → Type 0
NeverReset os = (w : os.World) (n : ℕ) (fd : Option ℕ) → (os.read w fd n).0 ≢ refused econnreset

module _ (os : Os) where
  after_read-IsBounded :
      (s : Reading os.World) (w : os.World) (r : ReadReply)
      → IsBounded s
      → r ≢ refused econnreset
      → ((bytes : List ℕ) → r ≡ got bytes → length bytes ≤ recv_buff_size - length s.buffer)
      → Carries IsBounded (after_read os s w r)
  unfolding after_read step_forward
  after_read-IsBounded s w (got []) v ne law = record {
    fits = v.fits;
    above = v.above;
    sound = v.sound;
  }
  after_read-IsBounded s w (got (b ∷ bs)) v ne law =
      let le = law (b ∷ bs) refl in
      let zero_below = v.above in
      rw (zero_below, step_forward)
        (record {
          fits = omega (arith, length-append s.buffer (b ∷ bs), v.fits);
          above = zero_below;
          sound = v.sound;
        })
  after_read-IsBounded s w (refused econnreset) v ne law = absurd (ne refl)
  after_read-IsBounded s w (refused eintr) v ne law = record {
    fits = v.fits;
    above = v.above;
    sound = v.sound;
  }
  after_read-IsBounded s w (refused eagain) v ne law = record {
    fits = v.fits;
    above = v.above;
    sound = v.sound;
  }
  after_read-IsBounded s w (refused einprogress) v ne law = record {
    fits = v.fits;
    above = v.above;
    sound = v.sound;
  }
  after_read-IsBounded s w (refused (other n)) v ne law = record {
    fits = v.fits;
    above = v.above;
    sound = v.sound;
  }

  read_once-IsBounded :
      (s : Reading os.World)
      → ReadLaws os
      → NeverReset os
      → IsBounded s
      → Carries IsBounded (read_once os s)
  unfolding read_once
  read_once-IsBounded s laws never v =
      after_read-IsBounded s _ _ v (never s.tcp.world _ _) λ bytes r.
        let le = laws.within s.tcp.world s.link.mi_socket _ bytes r in
        let zero_below = v.above in omega (arith, v.fits)

  -- Where reads give no more than is asked for and none fails with ECONNRESET, a call that ends
  -- never left its buffer of 10 MB, and its last event gives the user the bytes of the buffer, with
  -- their number as the size.
  pub on_event_read-IsBounded :
      (fuel : ℕ) (t : Tcp os.World) (l : Link)
      → ReadLaws os
      → NeverReset os
      → Ensures
          (λ r.
            IsBounded r.1
            × (r.0.events
                ≡ r.1.tcp.events
                  ++ (received r.1.link.mh_link finish r.1.buffer (length r.1.buffer) ∷ [])))
          (on_event_read os fuel t l)
  unfolding on_event_read recv_end send_event store reported_size
  on_event_read-IsBounded fuel t l laws never =
      let start : Reading os.World = record {
        tcp = send_event t (received l.mh_link begin [] 0);
        link = l;
        buffer = [];
        below = 0;
        fault = false;
      } in
      let all =
        iterate-Ensures IsBounded (read_once os) (λ s v. read_once-IsBounded s laws never v) fuel
          start (record { fits = omega arith; above = refl; sound = refl }) in
      elim (Option-cases (iterate fuel (read_once os) start)) [
        | inl out ↦ rw (out, on_event_read) tt
        | inr (s, r) ↦
            let v : IsBounded s = rw r at all in
            let size : reported_size s.buffer s.below ≡ length s.buffer =
              rw (v.above) (omega (arith, v.fits)) in
            rw (r, on_event_read) (v, rw size refl)
      ]

  -- If the first read fails with ECONNRESET and the next with EAGAIN, the callback is given an
  -- empty buffer and the size 4294967295.
  pub on_event_read-reset :
      (fuel : ℕ) (t : Tcp os.World) (l : Link)
      → let w1 = (os.read t.world l.mi_socket recv_buff_size).1 in
        (os.read t.world l.mi_socket recv_buff_size).0 ≡ refused econnreset
        → (os.read w1 l.mi_socket (recv_buff_size + 1)).0 ≡ refused eagain
        → Returns
            (λ r.
              r.0.events
              ≡ ((t.events ++ (received l.mh_link begin [] 0 ∷ []))
                  ++ (received l.mh_link middle [] 0 ∷ []))
                ++ (received l.mh_link finish [] 4294967295 ∷ []))
            (on_event_read os (suc (suc fuel)) t l)
  unfolding on_event_read iterate
  on_event_read-reset fuel t l e1 e2 = rw (e1, e2, on_event_read) refl

  -- A buffer that is full asks for no bytes, and the answer is taken for the peer's close: the link
  -- is destroyed while data waits.
  pub read_once-full :
      (s : Reading os.World)
      → ReadLaws os
      → length s.buffer ≡ recv_buff_size
      → s.below ≡ 0
      → (n : List ℕ) × ((os.read s.tcp.world s.link.mi_socket 0).0 ≡ got n)
      → let w = (os.read s.tcp.world s.link.mi_socket 0).1 in
        let gone =
          (link_destroy os
            (record s.tcp { world = (del_epoll_read os w s.link.mi_socket).1 })
            s.link) in
        read_once os s ≡ leave (record s { tcp = gone.1; link = gone.0 })
  unfolding read_once after_read
  read_once-full s laws full above (bytes, r) =
      let no_room : recv_buff_size + s.below - length s.buffer ≡ 0 = omega arith in
      let le = laws.within s.tcp.world s.link.mi_socket 0 bytes r in
      rw (no_room, r) (empty bytes le)
    where
      empty :
          (bytes : List ℕ)
          → length bytes ≤ 0
          → let w = (os.read s.tcp.world s.link.mi_socket 0).1 in
            let gone =
              (link_destroy os
                (record s.tcp { world = (del_epoll_read os w s.link.mi_socket).1 })
                s.link) in
            after_read os s w (got bytes) ≡ leave (record s { tcp = gone.1; link = gone.0 })
      empty [] le = refl
      empty (b ∷ bs) le = absurd (omega arith)
