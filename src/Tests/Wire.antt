-- ===== src/Tests/Wire.antt =====
-- Examples for Wire.
use net_lib_wrapper.Prelude.{ℕ, ◌<◌, ◌^◌, ◌≡◌, refl, true, List, [], ◌∷◌, ◌++◌, length, arith}
use net_lib_wrapper.Wire.Network.{uint32, parse_at, pack_as, network_bytes, pack_as-parse_at}
use net_lib_wrapper.Wire.Endian.{host_bytes}
use net_lib_wrapper.Wire.Writer.{pack_u32, ms_append}
use net_lib_wrapper.Wire.Lists.{UintSet, parse_set, pack_set, pack_members}
use net_lib_wrapper.Wire.Sets.{IsSet32, parse_set-pack_set}

pack_as-parse_at_example :
    (pack_as uint32 0x01020304 (9 ∷ []) ≡ (true, 9 ∷ 1 ∷ 2 ∷ 3 ∷ 4 ∷ []))
    × (parse_at uint32 (9 ∷ 1 ∷ 2 ∷ 3 ∷ 4 ∷ 8 ∷ []) 6 1 0
        ≡ record { ok = true; i_offset = 5; value = 0x01020304 })
unfolding network_bytes
pack_as-parse_at_example =
    pack_as-parse_at uint32 0x01020304 0 (9 ∷ []) (9 ∷ 1 ∷ 2 ∷ 3 ∷ 4 ∷ 8 ∷ []) 6 1 (omega arith)
      (omega arith) (omega arith) (record { rest = 8 ∷ []; there = refl; fits = omega arith })

-- The set of 3 and 7, behind a byte and before another.
abbrev two_numbers : UintSet
two_numbers = (3, tt) ∷ (7, tt) ∷ []

two_numbers-IsSet32 : IsSet32 two_numbers
two_numbers-IsSet32 = record {
  sorted = (omega arith, tt);
  small = omega arith;
  keys = (omega arith, (omega arith, tt));
  values = (tt, (tt, tt));
}

set_short : length (pack_set two_numbers (9 ∷ [])).1 < 2 ^ 31
unfolding pack_set pack_members pack_u32 ms_append host_bytes
set_short = omega arith

parse_set-pack_set_example :
    ((pack_set two_numbers (9 ∷ [])).0 ≡ true)
    × (parse_set
          ((pack_set two_numbers (9 ∷ [])).1 ++ (8 ∷ []))
          (length (pack_set two_numbers (9 ∷ [])).1)
          1
          []
        ≡ record {
          ok = true;
          i_offset = length (pack_set two_numbers (9 ∷ [])).1;
          value = two_numbers;
        })
parse_set-pack_set_example =
    parse_set-pack_set two_numbers [] (9 ∷ []) (8 ∷ []) two_numbers-IsSet32 set_short

-- Two strings behind one that the list has.
abbrev two_strings : List (List ℕ)
two_strings = (65 ∷ []) ∷ (66 ∷ 67 ∷ []) ∷ []
