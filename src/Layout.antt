-- ===== src/Layout.antt =====
-- How the compiler lays out the structs of inc/pueo/rawdata.h (x86-64 System V ABI, the one that
-- the library is built for): size, alignment and member offsets, computed from the declarations.
pub mod Evolution
pub mod Access
use text.Mathlib.Text.{◌==◌ as str_eq}
use libpueorawdata.Prelude.{
  ℕ, ◌+◌, ◌-◌, ◌*◌, ◌/◌, ◌%◌, max, String, Bool, ◌==◌, if◌then◌else◌, Option, none, some,
}

-- A scalar of `int n` has size and alignment `n`. A bit-field `bits name unit width` is declared
-- with an integer type of `unit` bytes.
mutual
  pub data Ty : Type 0 where
    int : ℕ → Ty
    array : ℕ → Ty → Ty
    struct : Fields → Ty
    union : Fields → Ty

  pub data Fields : Type 0 where
    end : Fields
    field : String → Ty → Fields → Fields
    bits : String → ℕ → ℕ → Fields → Fields

-- The next multiple of `m`, for `m` above 0.
unfoldable pub round_up : ℕ → ℕ → ℕ
round_up n m = (n + m - 1) / m * m

-- Where a bit-field goes that would start at bit `pos`: it must not cross a boundary of its unit.
unfoldable pub place_bits : ℕ → ℕ → ℕ → ℕ
unfolding round_up
place_bits pos unit width =
    if pos / (8 * unit) == (pos + width - 1) / (8 * unit) then pos else round_up pos (8 * unit)

unfoldable mutual
  pub alignof : Ty → ℕ
  alignof (int n) = n
  alignof (array n t) = alignof t
  alignof (struct fs) = alignof_fields fs
  alignof (union fs) = alignof_fields fs

  pub alignof_fields : Fields → ℕ
  alignof_fields end = 1
  alignof_fields (field name t fs) = max (alignof t) (alignof_fields fs)
  alignof_fields (bits name unit width fs) = max unit (alignof_fields fs)

-- `end_bit fs pos` is the first bit behind the members `fs` laid out from bit `pos` on.
unfoldable mutual
  unfolding round_up place_bits alignof alignof_fields

  pub sizeof : Ty → ℕ
  sizeof (int n) = n
  sizeof (array n t) = n * sizeof t
  sizeof (struct fs) = round_up (round_up (end_bit fs 0) 8 / 8) (alignof_fields fs)
  sizeof (union fs) = round_up (widest fs) (alignof_fields fs)

  pub end_bit : Fields → ℕ → ℕ
  end_bit end pos = pos
  end_bit (field name t fs) pos = end_bit fs (round_up pos (8 * alignof t) + 8 * sizeof t)
  end_bit (bits name unit width fs) pos = end_bit fs (place_bits pos unit width + width)

  pub widest : Fields → ℕ
  widest end = 0
  widest (field name t fs) = max (sizeof t) (widest fs)
  widest (bits name unit width fs) = max unit (widest fs)

-- The first bit of a member of a struct.
unfoldable pub bit_offset : String → Fields → ℕ → Option ℕ
unfolding round_up place_bits alignof sizeof
bit_offset m end pos = none
bit_offset m (field name t fs) pos =
    let start = round_up pos (8 * alignof t) in
    if str_eq m name then some start else bit_offset m fs (start + 8 * sizeof t)
bit_offset m (bits name unit width fs) pos =
    let start = place_bits pos unit width in
    if str_eq m name then some start else bit_offset m fs (start + width)

-- `offsetof`, in bytes. The source applies it to members that exist, so 0 for any other is unused.
unfoldable pub offsetof : Ty → String → ℕ
unfolding bit_offset
offsetof (struct fs) m = elim (bit_offset m fs 0) [ none ↦ 0 | some b ↦ b / 8 ]
offsetof t m = 0
