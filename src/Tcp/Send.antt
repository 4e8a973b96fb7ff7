-- ===== src/Tcp/Send.antt =====
-- MsTcpLink::send_data, and the loops of do_send_buff and on_event_write that empty a link's
-- output buffers. `i_send_size` is an `int` there: the loops are the source's for buffers of less than
-- 2 ^ 31 bytes, of which the count stays in its range.
pub mod Laws
pub mod Stream
pub mod Halting
use net_lib_wrapper.Prelude.{
  ℕ, suc, ◌+◌, ◌-◌, Bool, true, false, ◌&&◌, ◌||◌, Option, none, some, List, [], ◌∷◌, ◌++◌, ltb,
  ◌==◌, if◌then◌else◌, take, drop, Round, leave, again, stuck, iterate,
}
use net_lib_wrapper.Os.{Os, Errno, Reply, Fd, eagain, done, failed}
use net_lib_wrapper.Tcp.Link.{SendBuff}

unfoldable pub is_eagain : Errno → Bool
is_eagain eagain = true
is_eagain _ = false

-- `i_send_size`, a number below 2 ^ 31 for the buffers that are modelled, the bytes that the kernel has taken in this loop, and the world.
pub record Sent (W : Type 0) : Type 0 where
  pub count : ℕ
  pub bytes : List ℕ
  pub world : W

-- `m_send_buff_list`, the bytes that the kernel has taken in this call, and the world.
pub record Drained (W : Type 0) : Type 0 where
  pub queue : List SendBuff
  pub bytes : List ℕ
  pub world : W

-- `st_send_tmp`, the copy of what is left of a buffer.
unfoldable pub remainder : List ℕ → ℕ → ℕ → SendBuff
remainder p_data ui_size i = record {
  p_data = some (take (ui_size - i) (drop i p_data));
  ui_size = ui_size - i;
}

module _ (os : Os) where
  open os use {World}

  unfoldable pub send_data : World → Fd → List ℕ → Reply × World
  send_data w fd p_data = os.write w fd p_data

  -- What follows the call of `send_data` in the inner loop.
  unfoldable pub after_write : ℕ → Sent World → List ℕ → World → Reply → Round (Sent World)
  unfolding is_eagain
  after_write ui_size s chunk w (failed e) = leave (record s { world = w })
  after_write ui_size s chunk w (done k e) =
      let s' : Sent World = record {
        count = s.count + k;
        bytes = s.bytes ++ take k chunk;
        world = w;
      } in
      if ((k == 0) && is_eagain e) || (s.count + k == ui_size) then leave s' else again s'

  -- `while( (unsigned int)i_send_size < ui_size )` and its body.
  unfoldable pub send_once : Fd → List ℕ → ℕ → Sent World → Round (Sent World)
  unfolding send_data after_write
  send_once fd p_data ui_size s =
      let chunk = take (ui_size - s.count) (drop s.count p_data) in
      let reply = send_data s.world fd chunk in
      if ltb s.count ui_size then after_write ui_size s chunk reply.1 reply.0 else leave s

  unfoldable pub send_loop : ℕ → Fd → List ℕ → ℕ → World → Option (Sent World)
  unfolding send_once
  send_loop fuel fd p_data ui_size w =
      iterate fuel (send_once fd p_data ui_size) (record { count = 0; bytes = []; world = w })

  -- What follows the inner loop: a remainder takes the entry's place, or the entry goes, or, when
  -- nothing was sent, it stays where it is.
  unfoldable pub after_send :
      List ℕ → SendBuff → List SendBuff → List ℕ → Option (Sent World) → Round (Drained World)
  unfolding remainder
  after_send p_data b bs bytes none = stuck
  after_send p_data b bs bytes (some s) =
      let to = λ (q : List SendBuff).
        let d : Drained World = record { queue = q; bytes = bytes ++ s.bytes; world = s.world } in
        d in
      if ltb s.count b.ui_size && ltb 0 s.count
      then leave (to (remainder p_data b.ui_size s.count ∷ bs))
      else if ltb 0 s.count
      then again (to bs)
      else again (to (b ∷ bs))

  -- One entry: NULL or empty data is dropped. The inner loop has a unit of fuel for each byte.
  unfoldable pub send_buff : Fd → SendBuff → List SendBuff → List ℕ → World → Round (Drained World)
  unfolding send_loop after_send
  send_buff fd b bs bytes w =
      let dropped : Drained World = record { queue = bs; bytes = bytes; world = w } in
      elim b.p_data [
        | none ↦ again dropped
        | some p_data ↦
            if b.ui_size == 0
            then again dropped
            else after_send p_data b bs bytes (send_loop (suc b.ui_size) fd p_data b.ui_size w)
      ]

  -- The loop over `m_send_buff_list`. Its iterator is the first entry in every round.
  unfoldable pub send_first : Fd → Drained World → Round (Drained World)
  unfolding send_buff
  send_first fd d = elim d.queue [ [] ↦ leave d | b ∷ bs ↦ send_buff fd b bs d.bytes d.world ]

  unfoldable pub drain : ℕ → Fd → List SendBuff → World → Option (Drained World)
  unfolding send_first
  drain fuel fd queue w =
      iterate fuel (send_first fd) (record { queue = queue; bytes = []; world = w })
