-- ===== src/Tcp/Invariant/Sending.antt =====
-- ms_tcp_send keeps the map of links sound.
use net_lib_wrapper.Prelude.{
  ℕ, ◌≤◌, ◌≡◌, Bool, false, Option, none, some, List, [], ◌∷◌, ◌++◌, All, length, length-take,
  length-drop, drop, ◌-◌, arith, Bool-cases, Option-cases, inl, inr, ltb, ◌==◌,
}
use net_lib_wrapper.Os.{Os, Reply, done, failed}
use net_lib_wrapper.Tcp.Link.{Link, SendBuff, IsWhole}
use net_lib_wrapper.Tcp.Table.{Tcp, find_link}
use net_lib_wrapper.Tcp.Send.{remainder, is_eagain}
use net_lib_wrapper.Tcp.Output.{SendResult, queue_rest, after_first_write, link_send}
use net_lib_wrapper.Tcp.Api.{ms_tcp_send, sent_state}
use net_lib_wrapper.Tcp.Invariant.{IsKept, IsSound, IsSane}
use net_lib_wrapper.Tcp.Invariant.Table.{find_link-IsKept, IsSound-weaken, store-IsSane}

-- What a caller of ms_tcp_send owes: the buffer has the bytes that it says.
abbrev pub IsLong : Option (List ℕ) → ℕ → Type 0
IsLong p_data ui_size = elim p_data [ none ↦ Unit {0} | some d ↦ ui_size ≤ length d ]

remainder-IsWhole :
    (p_data : List ℕ) (size i : ℕ) → size ≤ length p_data → IsWhole (remainder p_data size i)
unfolding remainder
remainder-IsWhole p_data size i le =
    omega (arith, length-take (size - i) (drop i p_data), length-drop i p_data)

All-last :
    (bs : List SendBuff) (b : SendBuff) → All IsWhole bs → IsWhole b → All IsWhole (bs ++ (b ∷ []))
All-last [] b a w = (w, tt)
All-last (c ∷ bs) b (v, a) w = (v, All-last bs b a w)

-- The link is as it should be with the flag that the call leaves, which is up if it was.
record IsSent {W : Type 0} (dead : ℕ) (flag : Bool) (i h : ℕ) (r : SendResult W) : Type 0 where
  kept : IsKept dead r.send_flag i h r.link
  up : r.send_flag ≡ false → flag ≡ false

module _ {dead : ℕ} (os : Os) (flag : Bool) (i h : ℕ) (l : Link) (k : IsKept dead flag i h l) where
  queue_rest-IsSent :
      (w : os.World) (p_data : List ℕ) (ui_size n : ℕ)
      → ui_size ≤ length p_data
      → IsSent dead flag i h (queue_rest os l flag w p_data ui_size n)
  unfolding queue_rest
  queue_rest-IsSent w p_data ui_size n le = elim (Bool-cases (n == ui_size)) [
    | inl all ↦ rw all (record { kept = k; up = λ d. d })
    | inr some_left ↦ rw some_left (elim (Bool-cases (ltb n ui_size)) [
      | inl less ↦ rw less (record {
        kept = record {
          key = k.key;
          given = k.given;
          apart = k.apart;
          whole = All-last l.send_buff_list _ k.whole (remainder-IsWhole p_data ui_size n le);
          idle = λ d. cc;
        };
        up = λ d. cc;
      })
      | inr more ↦ rw more (record {
        kept = record {
          key = k.key;
          given = k.given;
          apart = k.apart;
          whole = k.whole;
          idle = k.idle;
        };
        up = λ d. d;
      })
    ])
  ]

  after_first_write-IsSent :
      (w : os.World) (p_data : List ℕ) (ui_size : ℕ) (reply : Reply)
      → ui_size ≤ length p_data
      → IsSent dead flag i h (after_first_write os l flag w p_data ui_size reply)
  unfolding after_first_write
  after_first_write-IsSent w p_data ui_size (done n e) le = queue_rest-IsSent w p_data ui_size n le
  after_first_write-IsSent w p_data ui_size (failed e) le = elim (Bool-cases (is_eagain e)) [
    | inl busy ↦ rw busy (queue_rest-IsSent w p_data ui_size 0 le)
    | inr broken ↦ rw broken (record { kept = k; up = λ d. d })
  ]

  link_send-IsSent :
      (w : os.World) (p_data : Option (List ℕ)) (ui_size : ℕ)
      → IsLong p_data ui_size
      → IsSent dead flag i h (link_send os l flag w p_data ui_size)
  unfolding link_send
  link_send-IsSent w none ui_size long = record { kept = k; up = λ d. d }
  link_send-IsSent w (some p_data) ui_size long = elim (Bool-cases (ui_size == 0)) [
    | inl empty ↦ rw empty (record { kept = k; up = λ d. d })
    | inr full ↦ rw full (after_first_write-IsSent _ p_data ui_size _ long)
  ]

module _ (os : Os) where
  pub ms_tcp_send-IsSane :
      {dead : ℕ} (t : Tcp os.World) (h_link : ℕ) (p_data : Option (List ℕ)) (ui_size : ℕ)
      → IsLong p_data ui_size
      → IsSane dead t
      → IsSane dead (ms_tcp_send os t h_link p_data ui_size).1
  unfolding ms_tcp_send sent_state
  ms_tcp_send-IsSane {dead} t h_link p_data ui_size long s =
      elim (Option-cases (find_link t h_link)) [
        | inl missing ↦ rw (missing, ms_tcp_send) s
        | inr (l, there) ↦
            let k : IsKept dead t.send_flag t.i_link h_link l =
              find_link-IsKept t h_link l s there in
            let r = link_send os l t.send_flag t.world p_data ui_size in
            let q : IsSent dead t.send_flag t.i_link h_link r =
              link_send-IsSent os t.send_flag t.i_link h_link l k t.world p_data ui_size long in
            let s' : IsSound dead r.send_flag t.i_link t.links =
              IsSound-weaken t.send_flag r.send_flag t.i_link t.i_link t.links (omega arith) q.up
                s in
            rw (there, ms_tcp_send)
              (store-IsSane (record t { send_flag = r.send_flag; world = r.world }) h_link r.link
                q.kept s')
      ]
