-- ===== src/Layout/Access.antt =====
-- Reading a member of an object: the C expression `x.m`, `x.a[i]`, at the place that the layout gives.
pub mod Bounds
use text.Mathlib.Text.{◌==◌ as str_eq}
use libpueorawdata.Prelude.{
  ℕ, ◌+◌, ◌-◌, ◌*◌, ◌/◌, ◌%◌, ◌^◌, String, ltb, if◌then◌else◌, Option, none, some, List, [], ◌∷◌,
  take, drop,
}
use libpueorawdata.Prelude.Int.{ℤ, pos, sub_ℕ}
use libpueorawdata.Prelude.Memory.{Bytes}
use libpueorawdata.Layout.{
  Ty, Fields, int, array, struct, union, end, field, bits, alignof, sizeof, round_up, place_bits,
}

pub data Step : Type 0 where
  member : String → Step
  at : ℕ → Step

abbrev pub Place : Type 0
Place = List Step

unfoldable pub bit_field : Place → ℕ → ℕ → Option (ℕ × ℕ)
bit_field [] start width = some (start, width)
bit_field (s ∷ p) start width = none

-- The first bit and the width of the integer that an expression names.
unfoldable mutual
  unfolding alignof sizeof round_up place_bits bit_field

  pub locate : Ty → Place → ℕ → Option (ℕ × ℕ)
  locate (int n) [] off = some (off, 8 * n)
  locate (array n t) (at i ∷ p) off =
      let found = locate t p (off + i * (8 * sizeof t)) in if ltb i n then found else none
  locate (struct fs) (member m ∷ p) off = locate_in fs m p off off
  locate (union fs) (member m ∷ p) off = locate_union fs m p off
  locate t p off = none

  -- `base` is the first bit of the struct, `off` the first behind the members passed.
  pub locate_in : Fields → String → Place → ℕ → ℕ → Option (ℕ × ℕ)
  locate_in end m p base off = none
  locate_in (field name t fs) m p base off =
      let start = base + round_up (off - base) (8 * alignof t) in
      let here = locate t p start in
      let later = locate_in fs m p base (start + 8 * sizeof t) in
      if str_eq m name then here else later
  locate_in (bits name unit width fs) m p base off =
      let start = base + place_bits (off - base) unit width in
      let later = locate_in fs m p base (start + width) in
      if str_eq m name then bit_field p start width else later

  pub locate_union : Fields → String → Place → ℕ → Option (ℕ × ℕ)
  locate_union end m p base = none
  locate_union (field name t fs) m p base =
      let here = locate t p base in
      let later = locate_union fs m p base in if str_eq m name then here else later
  locate_union (bits name unit width fs) m p base =
      let later = locate_union fs m p base in
      if str_eq m name then bit_field p base width else later

-- Little-endian.
unfoldable pub le_value : Bytes → ℕ
le_value [] = 0
le_value (b ∷ bs) = b + 256 * le_value bs

unfoldable pub bits_at : Bytes → ℕ × ℕ → ℕ
unfolding le_value
bits_at m (start, width) =
    le_value (take ((start % 8 + width + 7) / 8) (drop (start / 8) m)) / 2 ^ (start % 8) % 2 ^ width

-- The bits of a member, as a number. The source names members that exist, so the 0 for any other is
-- unused.
unfoldable pub peek : Ty → Bytes → Place → ℕ
unfolding bits_at locate
peek t m p = elim (locate t p 0) [ none ↦ 0 | some found ↦ bits_at m found ]

-- Bits read in two's complement.
abbrev pub to_signed : ℕ → ℕ → ℤ
to_signed width n = if ltb n (2 ^ (width - 1)) then pos n else sub_ℕ n (2 ^ width)
