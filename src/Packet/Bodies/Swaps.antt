-- ===== src/Packet/Bodies/Swaps.antt =====
-- The answer with cruises swaps the bytes of a count before it tests it.
use net_lib_wrapper.Prelude.{
  le→leb, true, Bool, Option, none, some, All, Returns, Ensures, ℕ, zero, suc, ◌≤◌, ◌<◌, ◌≡◌, refl,
  false, List, [], ◌∷◌, ◌++◌, length, arith, leb, Bool-cases, inl, inr,
}
use net_lib_wrapper.Wire.Endian.{ms_endian32}
use net_lib_wrapper.Wire.Endian.Reverse.{reversed32, ms_endian32_lem}
use net_lib_wrapper.Wire.Writer.{pack_u32, Writer, ◌also◌}
use net_lib_wrapper.Packet.Bodies.Alarms.{require}
use net_lib_wrapper.Packet.Bodies.Cruises.{
  cruise_preset_len, alias_len_max, cruise_len, after_cruise, pack_cruises, swapped_cruise,
  CmdCruise, pack_cmd_cruise, GetCruiseInfoRespBody, pack_get_cruise_info_resp,
}

-- A writer fails on every buffer.
abbrev Fails : Writer → Type 0
Fails p = (buffer : List ℕ) → (p buffer).0 ≡ false

also-Fails : (p q : Writer) → Fails q → Fails (p also q)
unfolding ◌also◌
also-Fails p q hq buffer = elim (Bool-cases (p buffer).0) [
  | inl good ↦ rw good (hq (p buffer).1)
  | inr bad ↦ rw bad refl
]

first-Fails : (p q : Writer) → Fails p → Fails (p also q)
unfolding ◌also◌
first-Fails p q hp buffer = rw (hp buffer) refl

-- The count of a cruise that has presets, swapped, is above every count that the array has.
swapped_num :
    (n : ℕ) → 0 < n → n ≤ cruise_preset_len → leb (ms_endian32 n) cruise_preset_len ≡ false
unfolding reversed32
swapped_num n pos le = ground (arith, ms_endian32_lem n)

-- What is written of a cruise, once its alias has been copied.
written-Fails :
    (c : CmdCruise)
    → 0 < c.num
    → c.num ≤ cruise_preset_len
    → (buffer : List ℕ) → Ensures (λ r. r.0 ≡ false) (pack_cmd_cruise c buffer)
unfolding pack_cmd_cruise swapped_cruise require
written-Fails c pos le buffer = elim (Bool-cases (leb (ms_endian32 c.alias_len) alias_len_max)) [
  | inr past ↦ rw (past, pack_cmd_cruise) tt
  | inl fits ↦
      rw (fits, pack_cmd_cruise)
        (also-Fails _ _
          (also-Fails _ _ (
            also-Fails _ _ (
              also-Fails _ _
                (also-Fails _ _ (first-Fails _ _ (λ buffer. swapped_num c.num pos le))))))
          buffer)
]

zero_swapped : ms_endian32 0 ≤ alias_len_max
unfolding reversed32
zero_swapped = omega (arith, ms_endian32_lem 0)

-- A cruise without an alias has its alias copied.
no_alias :
    (c : CmdCruise) (buffer : List ℕ)
    → c.alias_len ≡ 0
    → Returns (λ r. Unit {0}) (pack_cmd_cruise c buffer)
unfolding pack_cmd_cruise swapped_cruise
no_alias c buffer e =
    let none_swapped : leb (ms_endian32 c.alias_len) alias_len_max ≡ true =
      rw e (le→leb (ms_endian32 0) alias_len_max zero_swapped) in
    rw (none_swapped, pack_cmd_cruise) tt

both :
    {A : Type 0} (P : A → Type 0) (o : Option A)
    → Returns (λ _. Unit {0}) o
    → Ensures P o
    → Returns P o
both P none r e = r
both P (some a) r e = e

after_cruise-fails :
    (o : Option (Bool × List ℕ)) (more : List ℕ → Option (Bool × List ℕ))
    → Returns (λ r. r.0 ≡ false) o
    → Returns (λ r. r.0 ≡ false) (after_cruise o more)
after_cruise-fails none more r = r
after_cruise-fails (some (false, b)) more r = refl
after_cruise-fails (some (true, b)) more r = absurd (ground arith)

after_cruise-more :
    (o : Option (Bool × List ℕ)) (more : List ℕ → Option (Bool × List ℕ))
    → Returns (λ _. Unit {0}) o
    → ((b : List ℕ) → Returns (λ r. r.0 ≡ false) (more b))
    → Returns (λ r. r.0 ≡ false) (after_cruise o more)
after_cruise-more none more r all = r
after_cruise-more (some (false, b)) more r all = refl
after_cruise-more (some (true, b)) more r all = all b

-- Cruises without aliases, of which one has presets.
pack_cruises-fails :
    (c : CmdCruise) (before after : List CmdCruise) (n : ℕ) (buffer : List ℕ)
    → All (λ (d : CmdCruise). d.alias_len ≡ 0) before
    → c.alias_len ≡ 0
    → 0 < c.num
    → c.num ≤ cruise_preset_len
    → length before < n
    → Returns (λ r. r.0 ≡ false) (pack_cruises (before ++ (c ∷ after)) n buffer)
unfolding pack_cruises
pack_cruises-fails c [] after zero buffer a e pos le lt = absurd (omega (arith, lt))
pack_cruises-fails c (d ∷ ds) after zero buffer a e pos le lt = absurd (omega (arith, lt))
pack_cruises-fails c [] after (suc n) buffer a e pos le lt =
    after_cruise-fails _ _ (both _ _ (no_alias c buffer e) (written-Fails c pos le buffer))
pack_cruises-fails c (d ∷ ds) after (suc n) buffer (p, a) e pos le lt =
    after_cruise-more _ _ (no_alias d buffer p)
      (λ b. pack_cruises-fails c ds after n b a e pos le (omega (arith, lt)))

-- The answer with cruises is never written when one of the cruises that it counts has presets, as
-- many as its array holds at most, and neither that cruise nor those before it have an alias:
-- whatever stands in the buffer, pack_resp returns false.
pub pack_get_cruise_info_resp-fails :
    (b : GetCruiseInfoRespBody) (c : CmdCruise) (before after : List CmdCruise) (buffer : List ℕ)
    → b.cruises ≡ before ++ (c ∷ after)
    → length before < b.ui_num
    → All (λ (d : CmdCruise). d.alias_len ≡ 0) before
    → c.alias_len ≡ 0
    → 0 < c.num
    → c.num ≤ cruise_preset_len
    → Returns (λ r. r.0 ≡ false) (pack_get_cruise_info_resp b buffer)
unfolding pack_get_cruise_info_resp
pack_get_cruise_info_resp-fails b c before after buffer e lt a alias pos le =
    after_cruise-more (some ((pack_u32 b.ui_num also require (leb b.ui_num cruise_len)) buffer))
      (pack_cruises b.cruises b.ui_num) tt
      (λ buf. rw e (pack_cruises-fails c before after b.ui_num buf a alias pos le lt))
