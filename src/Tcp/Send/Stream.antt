-- ===== src/Tcp/Send/Stream.antt =====
-- do_send_buff and on_event_write keep the byte stream of a link.
use net_lib_wrapper.Prelude.{
  ℕ, suc, ◌-◌, ◌≤◌, ◌≡◌, refl, sym, inl, inr, ◌∙◌, ap, Option, none, some, List, [], ◌∷◌, ◌++◌,
  arith, ltb, ◌==◌, length, take, drop, take-length, length-drop, take-append-drop, append-nil,
  append_assoc, All, Returns, Ensures, Bool-cases, Option-cases, Carries, iterate-Ensures,
}
use net_lib_wrapper.Os.{Os, WriteLaws, Fd}
use net_lib_wrapper.Tcp.Link.{SendBuff, payload, pending, IsWhole, IsShort}
use net_lib_wrapper.Tcp.Send.{Sent, Drained, after_send, send_buff, send_first, drain, remainder}
use net_lib_wrapper.Tcp.Send.Laws.{IsPrefix, send_loop-Returns}

-- The bytes sent and the bytes that wait make up the stream, and each buffer owns its bytes.
pub record IsStream {W : Type 0} (stream : List ℕ) (d : Drained W) : Type 0 where
  pub whole : All IsWhole d.queue
  pub order : d.bytes ++ pending d.queue ≡ stream

split_at :
    (c : ℕ) (p_data rest bytes : List ℕ)
    → (bytes ++ take c p_data) ++ (drop c p_data ++ rest) ≡ bytes ++ (p_data ++ rest)
split_at c p_data rest bytes = simp append_assoc (
    ap (λ (t : List ℕ). bytes ++ t)
      (sym (append_assoc (take c p_data) (drop c p_data) rest)
        ∙ ap (λ (t : List ℕ). t ++ rest) (take-append-drop c p_data)))

pub payload-remainder :
    (p_data : List ℕ) (size c : ℕ)
    → length p_data ≡ size
    → payload (remainder p_data size c) ≡ drop c p_data
unfolding remainder
payload-remainder p_data size c h =
    let inner : take (size - c) (drop c p_data) ≡ drop c p_data =
      take-length (size - c) (drop c p_data) (omega (arith, length-drop c p_data)) in
    rw (inner, inner)

pub remainder-IsWhole :
    (p_data : List ℕ) (size c : ℕ) → length p_data ≡ size → IsWhole (remainder p_data size c)
unfolding remainder
remainder-IsWhole p_data size c h =
    let inner : take (size - c) (drop c p_data) ≡ drop c p_data =
      take-length (size - c) (drop c p_data) (omega (arith, length-drop c p_data)) in
    rw inner (omega (arith, length-drop c p_data))

payload-IsWhole :
    (b : SendBuff) (p_data : List ℕ)
    → b.p_data ≡ some p_data
    → length p_data ≡ b.ui_size
    → (payload b ≡ p_data) × IsWhole b
payload-IsWhole b p_data e h = (rw e (take-length b.ui_size p_data (omega arith)), rw e h)

-- The bytes of a run of sends have left the buffers, which are `q` after it.
abbrev IsKept : {W : Type 0} → List ℕ → List SendBuff → List ℕ → Sent W → List SendBuff → Type 0
IsKept p_data bs bytes s q =
    IsStream (bytes ++ (p_data ++ pending bs))
      (record { queue = q; bytes = bytes ++ s.bytes; world = s.world })

-- The three things that can become of the first buffer.
module _ {W : Type 0} (s : Sent W) (b : SendBuff) (p_data : List ℕ) (bs : List SendBuff)
    (bytes : List ℕ) (p : IsPrefix p_data s) (h : length p_data ≡ b.ui_size)
    (a : All IsWhole bs) where
  partial-IsStream : IsKept p_data bs bytes s (remainder p_data b.ui_size s.count ∷ bs)
  partial-IsStream = record {
    whole = (remainder-IsWhole p_data b.ui_size s.count h, a);
    order =
        rw (payload-remainder p_data b.ui_size s.count h, p.bytes)
          (split_at s.count p_data (pending bs) bytes);
  }

  full-IsStream : b.ui_size ≤ s.count → IsKept p_data bs bytes s bs
  full-IsStream all = record {
    whole = a;
    order =
        rw (p.bytes, take-length s.count p_data (omega arith))
          (append_assoc bytes p_data (pending bs));
  }

  idle-IsStream : b.p_data ≡ some p_data → s.count ≡ 0 → IsKept p_data bs bytes s (b ∷ bs)
  idle-IsStream e idle =
      let (kept, whole) = payload-IsWhole b p_data e h in
      record {
        whole = (whole, a);
        order =
            rw (p.bytes, idle, kept)
              (ap (λ (t : List ℕ). t ++ (p_data ++ pending bs)) (append-nil bytes));
      }

module _ (os : Os) where
  after_send-Carries :
      (p_data : List ℕ) (b : SendBuff) (bs : List SendBuff) (bytes : List ℕ)
      (o : Option (Sent os.World))
      → b.p_data ≡ some p_data
      → length p_data ≡ b.ui_size
      → All IsWhole bs
      → Returns (IsPrefix p_data) o
      → Carries (IsStream (bytes ++ (p_data ++ pending bs))) (after_send os p_data b bs bytes o)
  unfolding after_send
  after_send-Carries p_data b bs bytes none e h a p = absurd p
  after_send-Carries p_data b bs bytes (some s) e h a p =
      elim (Bool-cases (ltb s.count b.ui_size)) [
        | inr all ↦ elim (Bool-cases (ltb 0 s.count)) [
          | inl sent ↦ rw (all, sent) (full-IsStream s b p_data bs bytes p h a (ground arith))
          | inr idle ↦ rw (all, idle) (idle-IsStream s b p_data bs bytes p h a e (ground arith))
        ]
        | inl more ↦ elim (Bool-cases (ltb 0 s.count)) [
          | inl some_sent ↦ rw (more, some_sent) (partial-IsStream s b p_data bs bytes p h a)
          | inr idle ↦ rw (more, idle) (idle-IsStream s b p_data bs bytes p h a e (ground arith))
        ]
      ]

  send_buff-Carries :
      (fd : Fd) (b : SendBuff) (bs : List SendBuff) (bytes : List ℕ) (w : os.World)
      (o : Option (List ℕ))
      → WriteLaws os
      → b.p_data ≡ o
      → IsWhole b
      → All IsWhole bs
      → Carries (IsStream (bytes ++ (payload b ++ pending bs))) (send_buff os fd b bs bytes w)
  unfolding send_buff
  send_buff-Carries fd b bs bytes w none laws e h a =
      rw (e, send_buff) (record { whole = a; order = refl })
  send_buff-Carries fd b bs bytes w (some p_data) laws e h a =
      let size : length p_data ≡ b.ui_size = rw e at h in
      elim (Bool-cases (b.ui_size == 0)) [
        | inl empty ↦
            let none_left : b.ui_size ≡ 0 = ground arith in
            rw (e, send_buff, empty) (record { whole = a; order = rw none_left })
        | inr full ↦
            rw (e, send_buff, full, take-length b.ui_size p_data (omega arith))
              (after_send-Carries p_data b bs bytes _ e size a (
                send_loop-Returns os (suc b.ui_size) fd p_data b.ui_size w laws size (omega arith)))
      ]

  send_first-Carries :
      (fd : Fd) (stream : List ℕ) (queue : List SendBuff) (bytes : List ℕ) (w : os.World)
      → WriteLaws os
      → IsStream {W = os.World} stream (record { queue = queue; bytes = bytes; world = w })
      → Carries
          (IsStream stream)
          (send_first os fd (record { queue = queue; bytes = bytes; world = w }))
  unfolding send_first
  send_first-Carries fd stream [] bytes w laws p = p
  send_first-Carries fd stream (b ∷ bs) bytes w laws p =
      rw (← p.order) (send_buff-Carries fd b bs bytes w b.p_data laws refl p.whole.0 p.whole.1)

  -- The stream is kept whatever the sizes, in the numbers of the model.
  pub drain-carried :
      (fuel : ℕ) (fd : Fd) (queue : List SendBuff) (w : os.World)
      → WriteLaws os
      → All IsWhole queue
      → Ensures (IsStream (pending queue)) (drain os fuel fd queue w)
  unfolding drain
  drain-carried fuel fd queue w laws a =
      iterate-Ensures (IsStream (pending queue)) (send_first os fd)
        (λ d p. send_first-Carries fd (pending queue) d.queue d.bytes d.world laws p) fuel
        (record { queue = queue; bytes = []; world = w }) (record { whole = a; order = refl })

  after_send-IsShort :
      (p_data : List ℕ) (b : SendBuff) (bs : List SendBuff) (bytes : List ℕ)
      (o : Option (Sent os.World))
      → All IsShort (b ∷ bs)
      → Carries (λ d. All IsShort d.queue) (after_send os p_data b bs bytes o)
  unfolding after_send remainder
  after_send-IsShort p_data b bs bytes none (p, ps) = tt
  after_send-IsShort p_data b bs bytes (some s) (p, ps) =
      elim (Bool-cases (ltb s.count b.ui_size)) [
        | inr all ↦ elim (Bool-cases (ltb 0 s.count)) [
          | inl sent ↦ rw (all, sent) ps
          | inr idle ↦ rw (all, idle) (p, ps)
        ]
        | inl more ↦ elim (Bool-cases (ltb 0 s.count)) [
          | inl some_sent ↦ rw (more, some_sent) (omega (arith, p), ps)
          | inr idle ↦ rw (more, idle) (p, ps)
        ]
      ]

  send_first-IsShort :
      (fd : Fd) (d : Drained os.World)
      → All IsShort d.queue
      → Carries (λ d. All IsShort d.queue) (send_first os fd d)
  unfolding send_first send_buff
  send_first-IsShort fd d a = go d.queue a
    where
      go :
          (queue : List SendBuff)
          → All IsShort queue
          → Carries
              (λ d. All IsShort d.queue)
              (send_first os fd (record { queue = queue; bytes = d.bytes; world = d.world }))
      go [] a = a
      go (b ∷ bs) a = elim (Option-cases b.p_data) [
        | inl null ↦ rw (null, send_buff) a.1
        | inr (p_data, e) ↦ elim (Bool-cases (b.ui_size == 0)) [
          | inl empty ↦ rw (e, send_buff, empty) a.1
          | inr full ↦ rw (e, send_buff, full) (after_send-IsShort p_data b bs d.bytes _ a)
        ]
      ]

  drain-IsShort :
      (fuel : ℕ) (fd : Fd) (queue : List SendBuff) (w : os.World)
      → All IsShort queue
      → Ensures (λ d. All IsShort d.queue) (drain os fuel fd queue w)
  unfolding drain
  drain-IsShort fuel fd queue w a =
      iterate-Ensures (λ d. All IsShort d.queue) (send_first os fd)
        (λ d p. send_first-IsShort fd d p) fuel (record { queue = queue; bytes = []; world = w }) a

  -- If each write takes no more than it is given, at least a byte where there is one, and each
  -- buffer owns as many bytes as it says and has less than 2 ^ 31 of them, then a call that ends has
  -- handed over a prefix of the bytes that waited, in their order, and kept the rest in order, in
  -- buffers that own what they say and stay below 2 ^ 31 bytes.
  pub drain-IsStream :
      (fuel : ℕ) (fd : Fd) (queue : List SendBuff) (w : os.World)
      → WriteLaws os
      → All IsWhole queue
      → All IsShort queue
      → Ensures (λ d. IsStream (pending queue) d × All IsShort d.queue) (drain os fuel fd queue w)
  drain-IsStream fuel fd queue w laws a short = elim (Option-cases (drain os fuel fd queue w)) [
    | inl out ↦ rw out tt
    | inr (d, r) ↦
        let s : IsStream (pending queue) d = rw r at (drain-carried fuel fd queue w laws a) in
        let b : All IsShort d.queue = rw r at (drain-IsShort fuel fd queue w short) in rw r (s, b)
  ]
