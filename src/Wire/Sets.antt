-- ===== src/Wire/Sets.antt =====
-- Round trips of sets and lists.
use net_lib_wrapper.Prelude.{
  ℕ, ◌<◌, zero, suc, ◌^◌, ◌%◌, ◌≡◌, refl, ap, sym, ◌∙◌, true, List, [], ◌∷◌, ◌++◌, append-nil,
  length, arith, length-append,
}
use net_lib_wrapper.Prelude.Assoc.{insert}
use net_lib_wrapper.Wire.Reader.{Reader, parse_u32, parse_entries, parse_map}
use net_lib_wrapper.Wire.Writer.{Writer, pack_entries, pack_map}
use net_lib_wrapper.Wire.RoundTrip.{parsed, Writes, Reads}
use net_lib_wrapper.Wire.Containers.{u32_bytes, map_bytes, pack_u32-Writes}
use net_lib_wrapper.Wire.Maps.{IsMap, pack_map-Writes, parse_map-Reads}
use net_lib_wrapper.Wire.ListTrips.{written_end}
use net_lib_wrapper.Wire.Lists.{UintSet, parse_members, parse_set, pack_members, pack_set}

-- A value that takes no bytes.
parse_unit : Reader (Unit {0})
parse_unit i u = parsed i u

pack_unit : Unit {0} → Writer
pack_unit u buffer = (true, buffer)

-- A set is read and written as a map to nothing is.
parse_members-parse_entries :
    (buf : List ℕ) (size n i key : ℕ) (s : UintSet)
    → parse_members buf size n i key s ≡ parse_entries buf size parse_unit n i key tt s
unfolding parse_members parse_entries parse_unit
parse_members-parse_entries buf size zero i key s = refl
parse_members-parse_entries buf size (suc n) i key s =
    parse_members-parse_entries buf size n (parse_u32 buf size i key).i_offset
      (parse_u32 buf size i key).value (insert (parse_u32 buf size i key).value tt s)

parse_set-parse_map :
    (buf : List ℕ) (size i : ℕ) (old : UintSet)
    → parse_set buf size i old ≡ parse_map buf size parse_unit tt i old
unfolding parse_set parse_map
parse_set-parse_map buf size i old =
    parse_members-parse_entries buf size (parse_u32 buf size i 0).value
      (parse_u32 buf size i 0).i_offset 0 []

pack_members-pack_entries :
    (s : UintSet) (buffer : List ℕ) → pack_members s buffer ≡ pack_entries pack_unit s buffer
unfolding pack_members pack_entries pack_unit
pack_members-pack_entries [] buffer = refl
pack_members-pack_entries ((k, u) ∷ s) buffer =
    rw (pack_u32-Writes k buffer, pack_members-pack_entries s (buffer ++ u32_bytes k)) refl

pack_set-pack_map :
    (s : UintSet) (buffer : List ℕ) → pack_set s buffer ≡ pack_map pack_unit s buffer
unfolding pack_set pack_map
pack_set-pack_map s buffer =
    rw
      (
        pack_u32-Writes (length s % 2 ^ 32) buffer,
        pack_members-pack_entries s (buffer ++ u32_bytes (length s % 2 ^ 32)),
      )
      refl

-- A set as std::set keeps it, small enough for its count, with members in range.
abbrev pub IsSet32 : UintSet → Type 0
IsSet32 s = IsMap (λ (u : Unit {0}). Unit {0}) s

no_bytes : Unit {0} → List ℕ
no_bytes u = []

-- What stands in the buffer for a set.
unfoldable pub set_bytes : UintSet → List ℕ
unfolding no_bytes
set_bytes s = map_bytes no_bytes s

pub pack_set-Writes : (s : UintSet) → IsSet32 s → Writes (pack_set s) (set_bytes s)
unfolding set_bytes pack_unit no_bytes
pack_set-Writes s ok buffer = rw (pack_set-pack_map s buffer) (
    pack_map-Writes (λ u. Unit {0}) no_bytes pack_unit
      (λ u ok buf. ap (λ (t : List ℕ). (true, t)) (sym (append-nil buf))) s ok buffer)

pub parse_set-Reads : (s : UintSet) → IsSet32 s → Reads parse_set (set_bytes s) (λ _. s)
unfolding set_bytes parse_unit no_bytes
parse_set-Reads s ok buf size i old h = rw (parse_set-parse_map buf size i old) (
    parse_map-Reads (λ u. Unit {0}) no_bytes (λ buf size. parse_unit)
      (λ u ok buf size i old h. ap (λ (n : ℕ). parsed n tt) (omega arith)) tt s ok buf size i old h)

-- A set of fewer than 2 ^ 32 numbers below 2 ^ 32, in order, that with its buffer takes less than 2 ^ 31 bytes:
-- pack_resp appends it to the buffer, and parse_req at the end that the buffer had, whatever follows,
-- gives the set back and ends where pack_resp ended.
pub parse_set-pack_set :
    (s old : UintSet) (buffer rest : List ℕ)
    → IsSet32 s
    → length (pack_set s buffer).1 < 2 ^ 31
    → ((pack_set s buffer).0 ≡ true)
      × (parse_set
            ((pack_set s buffer).1 ++ rest)
            (length (pack_set s buffer).1)
            (length buffer)
            old
          ≡ record { ok = true; i_offset = length (pack_set s buffer).1; value = s })
parse_set-pack_set s old buffer rest ok small =
    let written = pack_set-Writes s ok buffer in
    let sum = length-append buffer (set_bytes s) in
    rw written (
      refl,
      parse_set-Reads s ok ((buffer ++ set_bytes s) ++ rest) (length (buffer ++ set_bytes s))
            (length buffer) old (written_end (set_bytes s) buffer rest)
          ∙ ap (λ (n : ℕ). parsed n s) (omega (arith, sum)),
    )
