-- ===== src/Tcp/Send/Halting.antt =====
-- When the output loop comes to an end.
use net_lib_wrapper.Prelude.{
  ℕ, zero, suc, ◌+◌, ◌-◌, ◌≤◌, ◌<◌, ◌≡◌, refl, inl, inr, Option, none, some, List, [], ◌∷◌, arith,
  ltb, ◌==◌, length, take, drop, length-drop, All, Returns, Bool-cases, ltb→lt, lt→ltb, ◌++◌, leave,
  again, Round, Keeps, iterate, iterate-Returns,
}
use net_lib_wrapper.Os.{Os, WriteLaws, Fd, Errno, Reply, done, failed}
use net_lib_wrapper.Tcp.Link.{SendBuff, IsWhole}
use net_lib_wrapper.Tcp.Send.{
  Sent, Drained, after_write, send_once, after_send, send_buff, send_first, drain, send_loop,
  send_data,
}
use net_lib_wrapper.Tcp.Send.Laws.{chunk_lem}

-- A socket that refuses only so many writes: each refusal uses up some patience, and no write
-- restores any.
pub record IsPatient (os : Os) (patience : os.World → ℕ) : Type 0 where
  pub refusal :
      (w : os.World) (fd : Fd) (bytes : List ℕ) (e : Errno)
      → (os.write w fd bytes).0 ≡ failed e
      → patience (os.write w fd bytes).1 < patience w
  pub acceptance :
      (w : os.World) (fd : Fd) (bytes : List ℕ) → patience (os.write w fd bytes).1 ≤ patience w

module _ (os : Os) (patience : os.World → ℕ) where
  -- The inner loop keeps the patience, and gives some up where it sends nothing.
  abbrev IsKept : ℕ → Sent os.World → Type 0
  IsKept n s = patience s.world ≤ n

  abbrev IsOver : ℕ → Sent os.World → Type 0
  IsOver n s = (patience s.world ≤ n) × (s.count ≡ 0 → patience s.world < n)

  after_write-Keeps :
      (size n : ℕ) (s : Sent os.World) (chunk : List ℕ) (w : os.World) (r : Reply)
      → s.count < size
      → patience s.world ≤ n
      → patience w ≤ patience s.world
      → ((e : Errno) → r ≡ failed e → patience w < patience s.world)
      → ((k : ℕ) (e : Errno) → r ≡ done k e → 0 < k)
      → Keeps (IsKept n) (IsOver n) (λ s. size - s.count) s (after_write os size s chunk w r)
  unfolding after_write
  after_write-Keeps size n s chunk w (failed e) lt p le refusal law =
      let fewer = refusal e refl in (omega arith, λ _. omega arith)
  after_write-Keeps size n s chunk w (done k e) lt p le refusal law =
      let pos = law k e refl in ground arith

  send_once-Keeps :
      (fd : Fd) (p_data : List ℕ) (size n : ℕ) (s : Sent os.World)
      → WriteLaws os
      → IsPatient os patience
      → length p_data ≡ size
      → 0 < size
      → patience s.world ≤ n
      → Keeps (IsKept n) (IsOver n) (λ s. size - s.count) s (send_once os fd p_data size s)
  unfolding send_once send_data
  send_once-Keeps fd p_data size n s laws calm h pos p = elim (Bool-cases (ltb s.count size)) [
    | inr stop ↦ rw (stop, send_once) (p, λ z. absurd (ground arith))
    | inl more ↦
        rw (more, chunk_lem p_data size s.count h)
          (after_write-Keeps size n s (drop s.count p_data) _ _ (ltb→lt _ _ more) p
            (calm.acceptance s.world fd _) (calm.refusal s.world fd _)
            λ k e r.
              let drops : length (drop s.count p_data) ≡ length p_data - s.count =
                length-drop s.count p_data in
              let lt : s.count < size = ltb→lt _ _ more in
              laws.progress s.world fd (drop s.count p_data) k e r (omega arith))
  ]

  send_loop-IsOver :
      (fuel : ℕ) (fd : Fd) (p_data : List ℕ) (size : ℕ) (w : os.World)
      → WriteLaws os
      → IsPatient os patience
      → length p_data ≡ size
      → 0 < size
      → size < fuel
      → Returns (IsOver (patience w)) (send_loop os fuel fd p_data size w)
  unfolding send_loop
  send_loop-IsOver fuel fd p_data size w laws calm h pos lt =
      iterate-Returns (IsKept (patience w)) (IsOver (patience w)) (λ s. size - s.count)
        (send_once os fd p_data size)
        (λ s p. send_once-Keeps fd p_data size (patience w) s laws calm h pos p) fuel
        (record { count = 0; bytes = []; world = w }) (omega arith) (omega arith)

  -- Rounds of the outer loop that are left, at most.
  abbrev budget : Drained os.World → ℕ
  budget d = length d.queue + patience d.world

  abbrev IsWholeQueue : Drained os.World → Type 0
  IsWholeQueue d = All IsWhole d.queue

  abbrev KeepsBudget : Drained os.World → Round (Drained os.World) → Type 0
  KeepsBudget = Keeps IsWholeQueue (λ _. Unit {0}) budget

  after_send-Keeps :
      (p_data : List ℕ) (b : SendBuff) (bs : List SendBuff) (bytes : List ℕ) (w : os.World)
      (o : Option (Sent os.World))
      → IsWhole b
      → All IsWhole bs
      → Returns (IsOver (patience w)) o
      → KeepsBudget
          (record { queue = b ∷ bs; bytes = bytes; world = w })
          (after_send os p_data b bs bytes o)
  unfolding after_send
  after_send-Keeps p_data b bs bytes w none h a p = p
  after_send-Keeps p_data b bs bytes w (some s) h a (kept, lost) =
      elim (Bool-cases (ltb 0 s.count)) [
        | inr idle ↦
            let fewer = lost (ground arith) in
            elim (Bool-cases (ltb s.count b.ui_size)) [
              | inl more ↦ rw (more, idle) ((h, a), omega arith)
              | inr all ↦ rw (all, idle) ((h, a), omega arith)
            ]
        | inl sent ↦ elim (Bool-cases (ltb s.count b.ui_size)) [
          | inl more ↦ rw (more, sent) tt
          | inr all ↦ rw (all, sent) (a, omega arith)
        ]
      ]

  send_buff-Keeps :
      (fd : Fd) (b : SendBuff) (bs : List SendBuff) (bytes : List ℕ) (w : os.World)
      (o : Option (List ℕ))
      → WriteLaws os
      → IsPatient os patience
      → b.p_data ≡ o
      → IsWhole b
      → All IsWhole bs
      → KeepsBudget
          (record { queue = b ∷ bs; bytes = bytes; world = w })
          (send_buff os fd b bs bytes w)
  unfolding send_buff
  send_buff-Keeps fd b bs bytes w none laws calm e h a = rw (e, send_buff) (a, omega arith)
  send_buff-Keeps fd b bs bytes w (some p_data) laws calm e h a =
      let size : length p_data ≡ b.ui_size = rw e at h in
      elim (Bool-cases (b.ui_size == 0)) [
        | inl empty ↦ rw (e, send_buff, empty) (a, omega arith)
        | inr full ↦
            rw (e, send_buff, full)
              (after_send-Keeps p_data b bs bytes w _ h a (
                send_loop-IsOver (suc b.ui_size) fd p_data b.ui_size w laws calm size (ground arith)
                  (omega arith)))
      ]

  send_first-Keeps :
      (fd : Fd) (queue : List SendBuff) (bytes : List ℕ) (w : os.World)
      → WriteLaws os
      → IsPatient os patience
      → All IsWhole queue
      → KeepsBudget
          (record { queue = queue; bytes = bytes; world = w })
          (send_first os fd (record { queue = queue; bytes = bytes; world = w }))
  unfolding send_first
  send_first-Keeps fd [] bytes w laws calm a = tt
  send_first-Keeps fd (b ∷ bs) bytes w laws calm a =
      send_buff-Keeps fd b bs bytes w b.p_data laws calm refl a.0 a.1

  -- On a socket that refuses at most `patience w` writes, and takes at least a byte of any other,
  -- with buffers that own what they say, more rounds than there are buffers and refusals are enough
  -- for the call to return.
  pub drain-Returns :
      (fuel : ℕ) (fd : Fd) (queue : List SendBuff) (w : os.World)
      → WriteLaws os
      → IsPatient os patience
      → All IsWhole queue
      → length queue + patience w < fuel
      → Returns (λ _. Unit {0}) (drain os fuel fd queue w)
  unfolding drain
  drain-Returns fuel fd queue w laws calm a lt =
      iterate-Returns IsWholeQueue (λ _. Unit {0}) budget (send_first os fd)
        (λ d p. send_first-Keeps fd d.queue d.bytes d.world laws calm p) fuel
        (record { queue = queue; bytes = []; world = w }) lt a

-- A socket on which every write fails, as after the peer has gone.
abbrev pub IsDead : Os → Fd → Type 0
IsDead os fd = (w : os.World) (bytes : List ℕ) → (e : Errno) × ((os.write w fd bytes).0 ≡ failed e)

module _ (os : Os) (fd : Fd) (dead : IsDead os fd) where
  dead_after_write :
      (size : ℕ) (s : Sent os.World) (chunk : List ℕ) (w : os.World) (r : Reply) (e : Errno)
      → r ≡ failed e
      → after_write os size s chunk w r ≡ leave (record s { world = w })
  unfolding after_write
  dead_after_write size s chunk w (failed _) e h = refl
  dead_after_write size s chunk w (done k _) e h = cc

  -- The inner loop sends nothing.
  dead_send_loop :
      (fuel : ℕ) (p_data : List ℕ) (size : ℕ) (w : os.World)
      → 0 < size
      → (w' : os.World) × (send_loop os (suc fuel) fd p_data size w
          ≡ some (record { count = 0; bytes = []; world = w' }))
  unfolding send_loop send_once send_data iterate
  dead_send_loop fuel p_data size w pos =
      let chunk : List ℕ = take (size - 0) p_data in
      let (e, r) = dead w chunk in
      let stops =
        dead_after_write size (record { count = 0; bytes = []; world = w }) chunk
          (os.write w fd chunk).1 (os.write w fd chunk).0 e r in
      ((os.write w fd chunk).1, rw (lt→ltb 0 size pos, stops))

  dead_round :
      (b : SendBuff) (bs : List SendBuff) (p_data bytes : List ℕ) (w : os.World)
      → b.p_data ≡ some p_data
      → 0 < b.ui_size
      → (w' : os.World) × (send_buff os fd b bs bytes w
          ≡ again (record { queue = b ∷ bs; bytes = bytes ++ []; world = w' }))
  unfolding send_buff after_send
  dead_round b bs p_data bytes w e pos =
      let (w', sent) = dead_send_loop b.ui_size p_data b.ui_size w pos in (w', ground (arith, sent))

  spins :
      (fuel : ℕ) (b : SendBuff) (bs : List SendBuff) (p_data bytes : List ℕ) (w : os.World)
      → b.p_data ≡ some p_data
      → 0 < b.ui_size
      → iterate fuel (send_first os fd) (record { queue = b ∷ bs; bytes = bytes; world = w }) ≡ none
  unfolding iterate send_first
  spins zero b bs p_data bytes w e pos = refl
  spins (suc fuel) b bs p_data bytes w e pos =
      let (w', round) = dead_round b bs p_data bytes w e pos in
      rw round (spins fuel b bs p_data (bytes ++ []) w' e pos)

  -- On a socket on which every write fails the call never returns while the first buffer has data:
  -- no fuel is enough.
  pub drain-dead :
      (fuel : ℕ) (b : SendBuff) (bs : List SendBuff) (p_data : List ℕ) (w : os.World)
      → b.p_data ≡ some p_data
      → 0 < b.ui_size
      → drain os fuel fd (b ∷ bs) w ≡ none
  unfolding drain
  drain-dead fuel b bs p_data w e pos = spins fuel b bs p_data [] w e pos
