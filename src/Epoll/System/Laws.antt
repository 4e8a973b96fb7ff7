-- ===== src/Epoll/System/Laws.antt =====
-- What holds of the library in every state that it reaches.
use net_lib_wrapper.Prelude.{
  ℕ, ◌≤◌, ◌<◌, ◌^◌, ◌≡◌, ◌≢◌, ◌⊎◌, refl, Bool, true, none, some, List, [], ◌∷◌, arith, All,
  Bool-cases, Option-cases, inl, inr,
}
use net_lib_wrapper.Prelude.Assoc.{find}
use net_lib_wrapper.Prelude.Assoc.Entries.{Every}
use net_lib_wrapper.Os.{Os, WriteLaws}
use net_lib_wrapper.Tcp.Link.{Link, IsWhole}
use net_lib_wrapper.Tcp.Table.{Tcp, find_link}
use net_lib_wrapper.Epoll.System.{Step, Reach, start}
use net_lib_wrapper.Tcp.Invariant.{IsKept, IsSane}
use net_lib_wrapper.Tcp.Invariant.Table.{
  find_link-IsKept, check_link_timeout-IsSane, free_all_link_map-IsSane,
}
use net_lib_wrapper.Tcp.Invariant.Calls.{
  ms_tcp_create-IsSane, ms_tcp_destroy-IsSane, ms_tcp_connect-IsSane, ms_tcp_listen-IsSane,
}
use net_lib_wrapper.Tcp.Invariant.Sending.{ms_tcp_send-IsSane}
use net_lib_wrapper.Epoll.System.Rounds.{worker_round-IsSane}

find_later :
    (h j : ℕ) (l : Link) (m : List (ℕ × Link))
    → find h ((j, l) ∷ m) ≡ none
    → (j ≢ h) × (find h m ≡ none)
unfolding find
find_later h j l m gone = ground arith

-- A handle that finds nothing may be taken for the one that is out of use.
retire :
    (dead h : ℕ) (flag : Bool) (i : ℕ) (m : List (ℕ × Link))
    → find h m ≡ none
    → Every (IsKept dead flag i) m
    → Every (IsKept h flag i) m
unfolding find
retire dead h flag i [] gone a = tt
retire dead h flag i ((j, l) ∷ m) gone (k, a) =
    let (away, gone') = find_later h j l m gone in
    (
      record {
        key = k.key;
        given = k.given;
        apart = λ small. away;
        whole = k.whole;
        idle = k.idle;
      },
      retire dead h flag i m gone' a,
    )

start-IsSane : {W : Type 0} (w : W) → IsSane 0 (start w)
start-IsSane w = record { sorted = tt; every = tt; retired = omega arith }

module _ (os : Os) where
  Step-IsSane :
      {dead : ℕ} {t u : Tcp os.World} → WriteLaws os → Step os t u → IsSane dead t → IsSane dead u
  Step-IsSane {t} laws (Step.create name port) s = ms_tcp_create-IsSane os t name port s
  Step-IsSane {t} laws (Step.destroy h_link) s = ms_tcp_destroy-IsSane os t h_link s
  Step-IsSane {t} laws (Step.connect h_link name port) s =
      ms_tcp_connect-IsSane os t h_link name port s
  Step-IsSane {t} laws (Step.listen h_link ui_block) s = ms_tcp_listen-IsSane os t h_link ui_block s
  Step-IsSane {t} laws (Step.send h_link p_data ui_size long) s =
      ms_tcp_send-IsSane os t h_link p_data ui_size long s
  Step-IsSane {t} laws (Step.work fuel exit_fd batch r e) s =
      rw e at (worker_round-IsSane os fuel exit_fd batch t laws s)
  Step-IsSane {t} laws Step.timeout s = check_link_timeout-IsSane os t s
  Step-IsSane {t} laws Step.close s = free_all_link_map-IsSane os t s

  Reach-IsSane :
      {dead : ℕ} {t u : Tcp os.World} → WriteLaws os → Reach os t u → IsSane dead t → IsSane dead u
  Reach-IsSane laws Reach.here s = s
  Reach-IsSane laws (Reach.later r st) s = Step-IsSane laws st (Reach-IsSane laws r s)

  -- In every state that a program reaches from the start, by calls whose buffers have the bytes that
  -- they say and by rounds of the threads in any order, where the kernel takes no more than it is
  -- given: a link that a handle finds knows that handle, which was given out, its buffers own what
  -- they say, and the send flag is up, so that the next pass of `do_send_buff` visits the link, or
  -- no buffer of it waits.
  pub Reach-IsKept :
      (w : os.World) (t : Tcp os.World) (h_link : ℕ) (l : Link)
      → WriteLaws os
      → Reach os (start w) t
      → find_link t h_link ≡ some l
      → (l.mh_link ≡ h_link)
        × (h_link ≤ t.i_link)
        × All IsWhole l.send_buff_list
        × ((t.send_flag ≡ true) ⊎ (l.send_buff_list ≡ []))
  Reach-IsKept w t h_link l laws r there =
      let s : IsSane 0 t = Reach-IsSane laws r (start-IsSane w) in
      let k : IsKept 0 t.send_flag t.i_link h_link l = find_link-IsKept t h_link l s there in
      (
        k.key,
        k.given,
        k.whole,
        elim (Bool-cases t.send_flag) [ inl up ↦ inl up | inr down ↦ inr (k.idle down) ],
      )

  -- A handle is never used again: where a state that a program has reached from the start has no
  -- link under a handle that was given out, no later state has one, as long as the counter stays
  -- below 2 ^ 31.
  pub Reach-retired :
      (w : os.World) (t u : Tcp os.World) (h_link : ℕ)
      → WriteLaws os
      → Reach os (start w) t
      → h_link ≤ t.i_link
      → find_link t h_link ≡ none
      → Reach os t u
      → u.i_link < 2 ^ 31
      → find_link u h_link ≡ none
  unfolding find_link
  Reach-retired w t u h_link laws before given gone after small =
      let s : IsSane 0 t = Reach-IsSane laws before (start-IsSane w) in
      let s' : IsSane h_link t = record {
        sorted = s.sorted;
        every = retire 0 h_link t.send_flag t.i_link t.links gone s.every;
        retired = given;
      } in
      let last : IsSane h_link u = Reach-IsSane laws after s' in
      elim (Option-cases (find_link u h_link)) [
        | inl missing ↦ missing
        | inr (l, there) ↦ absurd ((find_link-IsKept u h_link l last there).apart small refl)
      ]
