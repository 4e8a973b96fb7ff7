-- ===== src/Packet/Bodies/Play.antt =====
-- The requests to play and to stop a stream, which read the name of a device of the length that
-- strlen finds in the buffer into an array of DEVICE_NAME_LEN bytes.
use net_lib_wrapper.Prelude.{
  true, ℕ, ◌+◌, ◌^◌, ◌≤◌, ◌<◌, ◌≡◌, refl, ap, ◌∙◌, List, [], ◌∷◌, ◌++◌, length, drop, arith, suc,
  zero,
}
use net_lib_wrapper.Wire.Reader.{Reader, member}
use net_lib_wrapper.Wire.RoundTrip.{Holds, parse_bytes-Reads}
use net_lib_wrapper.Packet.Bodies.Text.{c_str, IsText}
use net_lib_wrapper.Packet.Bodies.Accounts.{parse_front}

-- `MSPlayReqBody_S`, and `MSVIDStopReqBody_S` with the same member and parse_req.
pub record PlayReqBody : Type 0 where
  pub ac_device_sn : List ℕ

-- The list is all of the memory that is read before the zero byte.
unfoldable pub strlen : List ℕ → ℕ
strlen s = length (c_str s)

unfoldable pub parse_play_req : List ℕ → ℕ → Reader PlayReqBody
parse_play_req pc_buffer i_size i =
    member (λ b. b.ac_device_sn) (λ v b. record b { ac_device_sn = v })
      (parse_front pc_buffer i_size (strlen (drop i pc_buffer))) i

c_str-append : (s rest : List ℕ) → IsText s → c_str (s ++ (0 ∷ rest)) ≡ s
unfolding c_str
c_str-append [] rest t = refl
c_str-append (zero ∷ s) rest (p, t) = absurd (omega (arith, p))
c_str-append (suc b ∷ s) rest (p, t) = rw (c_str-append s rest t) refl

-- A name of less than 2 ^ 31 bytes that stands in the buffer before a zero byte is copied whole to
-- the front of the array, however short the array is, and the zero byte is not skipped.
pub parse_play_req-name :
    (s rest pc_buffer : List ℕ) (i_size i : ℕ) (b : PlayReqBody)
    → IsText s
    → length s < 2 ^ 31
    → drop i pc_buffer ≡ s ++ (0 ∷ rest)
    → i + length s ≤ i_size
    → parse_play_req pc_buffer i_size i b ≡ record {
      ok = true;
      i_offset = i + length s;
      value = record { ac_device_sn = s ++ drop (length s) b.ac_device_sn };
    }
unfolding parse_play_req member parse_front strlen
parse_play_req-name s rest buf size i b t lt there fits =
    let n : strlen (drop i buf) ≡ length s =
      ap (λ (xs : List ℕ). length (c_str xs)) there ∙ ap length (c_str-append s rest t) in
    let h : Holds buf size i s = record { rest = 0 ∷ rest; there = there; fits = fits } in
    rw (n, parse_bytes-Reads s (length s) refl lt buf size i b.ac_device_sn h) refl
