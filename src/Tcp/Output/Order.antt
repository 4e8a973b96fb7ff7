-- ===== src/Tcp/Output/Order.antt =====
-- The order in which the bytes of a link reach the kernel.
use net_lib_wrapper.Prelude.{
  ℕ, ◌≤◌, ◌<◌, ◌≡◌, refl, sym, ◌∙◌, ap, inl, inr, Bool, true, false, some, List, [], ◌∷◌, ◌++◌,
  arith, ◌==◌, length, take, drop, take-length, take-append-drop, drop-length, lt→ltb, append-nil,
  append_assoc, All, Ensures, Bool-cases, Option-cases,
}
use net_lib_wrapper.Os.{Os, WriteLaws, Reply, Errno, done, failed}
use net_lib_wrapper.Tcp.Link.{Link, SendBuff, payload, pending, IsWhole, IsShort}
use net_lib_wrapper.Tcp.Send.{is_eagain, send_data, drain}
use net_lib_wrapper.Tcp.Send.Stream.{drain-IsStream, IsStream, payload-remainder}
use net_lib_wrapper.Tcp.Output.{SendResult, queue_rest, after_first_write, link_send, flush_links}

-- A message that a link accepts is split in two: `bytes`, which the kernel has, and the rest, which
-- waits behind what waited before.
pub record IsAccepted {W : Type 0} (message : List ℕ) (before : Link) (r : SendResult W)
    : Type 0 where
  pub rest : List ℕ
  pub split : r.bytes ++ rest ≡ message
  pub queued : pending r.link.send_buff_list ≡ pending before.send_buff_list ++ rest

pending-append : (xs ys : List SendBuff) → pending (xs ++ ys) ≡ pending xs ++ pending ys
pending-append [] ys = refl
pending-append (b ∷ bs) ys =
    rw (pending-append bs ys) (sym (append_assoc (payload b) (pending bs) (pending ys)))

split_lem : (i : ℕ) (p : List ℕ) → take i (take (length p) p) ++ drop i p ≡ p
split_lem i p = rw (take-length (length p) p (omega arith)) (take-append-drop i p)

module _ (os : Os) where
  queue_rest-IsAccepted :
      (l : Link) (flag : Bool) (w : os.World) (p_data : List ℕ) (i : ℕ)
      → i ≤ length p_data
      → IsAccepted p_data l (queue_rest os l flag w p_data (length p_data) i)
  unfolding queue_rest
  queue_rest-IsAccepted l flag w p_data i le = elim (Bool-cases (i == length p_data)) [
    | inl all ↦
        let gone : drop i p_data ≡ [] = drop-length i p_data (ground arith) in
        rw (all, queue_rest)
          (record {
            rest = drop i p_data;
            split = split_lem i p_data;
            queued = rw (gone, append-nil);
          })
    | inr not_all ↦
        rw (not_all, queue_rest, lt→ltb i (length p_data) (ground arith))
          (record {
            rest = drop i p_data;
            split = split_lem i p_data;
            queued =
                pending-append l.send_buff_list _
                ∙ ap (λ (t : List ℕ). pending l.send_buff_list ++ (t ++ []))
                    (payload-remainder p_data (length p_data) i refl)
                ∙ ap (λ (t : List ℕ). pending l.send_buff_list ++ t) (append-nil (drop i p_data));
          })
  ]

  after_first_write-IsAccepted :
      (l : Link) (flag : Bool) (w : os.World) (p_data : List ℕ) (reply : Reply)
      → ((k : ℕ) (e : Errno) → reply ≡ done k e → k ≤ length p_data)
      → (after_first_write os l flag w p_data (length p_data) reply).ok ≡ true
      → IsAccepted p_data l (after_first_write os l flag w p_data (length p_data) reply)
  unfolding after_first_write
  after_first_write-IsAccepted l flag w p_data (done k e) law ok =
      queue_rest-IsAccepted l flag w p_data k (law k e refl)
  after_first_write-IsAccepted l flag w p_data (failed e) law ok = elim (Bool-cases (is_eagain e)) [
    | inl later ↦ rw later (queue_rest-IsAccepted l flag w p_data 0 (omega arith))
    | inr broken ↦ absurd (ground arith)
  ]

  -- A message that `link_send` accepts is split in two: the kernel, which takes no more than it is
  -- given, has its first bytes, and the rest, if any, waits behind what waited before, so that what
  -- waited comes between the two parts.
  pub link_send-IsAccepted :
      (l : Link) (flag : Bool) (w : os.World) (p_data : List ℕ)
      → WriteLaws os
      → (link_send os l flag w (some p_data) (length p_data)).ok ≡ true
      → IsAccepted p_data l (link_send os l flag w (some p_data) (length p_data))
  unfolding link_send send_data
  link_send-IsAccepted l flag w p_data laws ok = elim (Bool-cases (length p_data == 0)) [
    | inl empty ↦ absurd (ground arith)
    | inr full ↦
        let chunk : List ℕ = take (length p_data) p_data in
        let fits : length chunk ≡ length p_data =
          ap length (take-length (length p_data) p_data (omega arith)) in
        rw (full, link_send)
          (after_first_write-IsAccepted l flag _ p_data _
            (λ k e r. let le = laws.within w l.mi_socket chunk k e r in omega arith) (ground arith))
  ]

  -- On a link with nothing waiting, what the kernel took of a message that `link_send` accepts, and
  -- then what waits, is the message.
  pub link_send-in_order :
      (l : Link) (flag : Bool) (w : os.World) (p_data : List ℕ)
      → WriteLaws os
      → pending l.send_buff_list ≡ []
      → (link_send os l flag w (some p_data) (length p_data)).ok ≡ true
      → let r = link_send os l flag w (some p_data) (length p_data) in
        r.bytes ++ pending r.link.send_buff_list ≡ p_data
  link_send-in_order l flag w p_data laws idle ok =
      let a = link_send-IsAccepted l flag w p_data laws ok in rw (a.queued, idle) a.split

  -- A message that the kernel takes whole goes out ahead of the bytes that waited on the link
  -- before it.
  pub link_send-overtakes :
      (l : Link) (flag : Bool) (w : os.World) (p_data : List ℕ) (e : Errno)
      → 0 < length p_data
      → (os.write w l.mi_socket p_data).0 ≡ done (length p_data) e
      → let r = link_send os l flag w (some p_data) (length p_data) in
        r.bytes ++ pending r.link.send_buff_list ≡ p_data ++ pending l.send_buff_list
  unfolding link_send send_data after_first_write queue_rest
  link_send-overtakes l flag w p_data e pos r =
      let whole = take-length (length p_data) p_data (omega arith) in
      let full : (length p_data == 0) ≡ false = ground arith in
      let all : (length p_data == length p_data) ≡ true = ground arith in
      rw (whole, r, after_first_write, whole, full, all, whole) refl

  -- Link by link: the bytes taken and those that still wait are those that waited, and only the
  -- buffers and the time differ.
  abbrev pub Streams : List (ℕ × Link) → List (ℕ × Link) → List (ℕ × List ℕ) → Type 0
  Streams [] [] [] = Unit {0}
  Streams ((h, l) ∷ m) ((h', l') ∷ m') ((h'', bytes) ∷ bs) =
      (h ≡ h')
      × (h ≡ h'')
      × (bytes ++ pending l'.send_buff_list ≡ pending l.send_buff_list)
      × (l' ≡ record l { send_buff_list = l'.send_buff_list; last_alive_time = l'.last_alive_time })
      × Streams m m' bs
  Streams _ _ _ = ⊥

  abbrev pub AreWhole : List (ℕ × Link) → Type 0
  AreWhole [] = Unit {0}
  AreWhole ((h, l) ∷ m) = All IsWhole l.send_buff_list × AreWhole m

  abbrev pub AreShort : List (ℕ × Link) → Type 0
  AreShort [] = Unit {0}
  AreShort ((h, l) ∷ m) = All IsShort l.send_buff_list × AreShort m

  -- A pass of `do_send_buff` over the links that returns, whose buffers own what they say and have
  -- less than 2 ^ 31 bytes each: link by link, the bytes that the kernel took and those that still
  -- wait are those that waited, in order, only the buffers and the time change, and the buffers still
  -- own what they say and stay below 2 ^ 31 bytes.
  pub flush_links-Streams :
      (fuel : ℕ) (m : List (ℕ × Link)) (w : os.World)
      → WriteLaws os
      → AreWhole m
      → AreShort m
      → Ensures
          (λ f. Streams m f.links f.bytes × (AreWhole f.links × AreShort f.links))
          (flush_links os fuel m w)
  unfolding flush_links
  flush_links-Streams fuel [] w laws a b = (tt, (tt, tt))
  flush_links-Streams fuel ((h, l) ∷ m) w laws (a, as') (b, bs) =
      elim (Option-cases (drain os fuel l.mi_socket l.send_buff_list w)) [
        | inl out ↦ rw (out, flush_links) tt
        | inr (d, r) ↦ elim (Option-cases (flush_links os fuel m d.world)) [
          | inl out ↦ rw (r, flush_links, out) tt
          | inr (rest, r') ↦
              let ih : Streams m rest.links rest.bytes
                  × (AreWhole rest.links × AreShort rest.links) =
                rw r' at (flush_links-Streams fuel m d.world laws as' bs) in
              let (s, short) : IsStream (pending l.send_buff_list) d × All IsShort d.queue =
                rw r at (drain-IsStream os fuel l.mi_socket l.send_buff_list w laws a b) in
              rw (r, flush_links, r')
                ((refl, refl, s.order, refl, ih.0), ((s.whole, ih.1.0), (short, ih.1.1)))
        ]
      ]
