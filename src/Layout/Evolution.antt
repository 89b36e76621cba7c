-- ===== src/Layout/Evolution.antt =====
-- What a struct keeps when a later version only appends members to it.
use text.Mathlib.Text.{◌==◌ as str_eq}
use text.Mathlib.TextEquality.{eq_iff}
use libpueorawdata.Prelude.{
  ℕ, ◌+◌, ◌*◌, ◌≡◌, refl, ap, Bool, true, false, ◌&&◌, ◌==◌, some, String, arith,
}
use libpueorawdata.Layout.{
  Ty, Fields, int, array, struct, union, end, field, bits, alignof, sizeof, round_up, place_bits,
  bit_offset,
}

-- `extends fs gs`: the members `gs` are the members `fs`, and others behind them.
unfoldable mutual
  pub same_type : Ty → Ty → Bool
  same_type (int n) (int m) = n == m
  same_type (array n s) (array m t) = n == m && same_type s t
  same_type (struct fs) (struct gs) = same_fields fs gs
  same_type (union fs) (union gs) = same_fields fs gs
  same_type _ _ = false

  pub same_fields : Fields → Fields → Bool
  same_fields end end = true
  same_fields (field n s fs) (field m t gs) = str_eq n m && same_type s t && same_fields fs gs
  same_fields (bits n u w fs) (bits m v x gs) = str_eq n m && u == v && w == x && same_fields fs gs
  same_fields _ _ = false

unfoldable pub extends : Fields → Fields → Bool
unfolding same_type
extends end gs = true
extends (field n s fs) (field m t gs) = str_eq n m && same_type s t && extends fs gs
extends (bits n u w fs) (bits m v x gs) = str_eq n m && u == v && w == x && extends fs gs
extends _ _ = false

mutual
  unfolding same_type

  same_type-eq : (s t : Ty) → same_type s t ≡ true → s ≡ t
  same_type-eq (int n) (int m) h = ground arith
  same_type-eq (array n s) (array m t) h = ground (arith, same_type-eq s t)
  same_type-eq (struct fs) (struct gs) h = ap struct (same_fields-eq fs gs h)
  same_type-eq (union fs) (union gs) h = ap union (same_fields-eq fs gs h)
  same_type-eq (int n) (array m t) h = ground arith
  same_type-eq (int n) (struct gs) h = ground arith
  same_type-eq (int n) (union gs) h = ground arith
  same_type-eq (array n s) (int m) h = ground arith
  same_type-eq (array n s) (struct gs) h = ground arith
  same_type-eq (array n s) (union gs) h = ground arith
  same_type-eq (struct fs) (int m) h = ground arith
  same_type-eq (struct fs) (array m t) h = ground arith
  same_type-eq (struct fs) (union gs) h = ground arith
  same_type-eq (union fs) (int m) h = ground arith
  same_type-eq (union fs) (array m t) h = ground arith
  same_type-eq (union fs) (struct gs) h = ground arith

  same_fields-eq : (fs gs : Fields) → same_fields fs gs ≡ true → fs ≡ gs
  same_fields-eq end end h = refl
  same_fields-eq (field n s fs) (field m t gs) h =
      ground (arith, eq_iff n m, same_type-eq s t, same_fields-eq fs gs)
  same_fields-eq (bits n u w fs) (bits m v x gs) h =
      ground (arith, eq_iff n m, same_fields-eq fs gs)
  same_fields-eq end (field m t gs) h = ground arith
  same_fields-eq end (bits m v x gs) h = ground arith
  same_fields-eq (field n s fs) end h = ground arith
  same_fields-eq (field n s fs) (bits m v x gs) h = ground arith
  same_fields-eq (bits n u w fs) end h = ground arith
  same_fields-eq (bits n u w fs) (field m t gs) h = ground arith

-- Every member of a struct stands at the same bit in a struct that extends it.
pub extends-bit_offset :
    (fs gs : Fields) (m : String) (pos o : ℕ)
    → extends fs gs ≡ true
    → bit_offset m fs pos ≡ some o
    → bit_offset m gs pos ≡ some o
unfolding extends bit_offset
extends-bit_offset end gs m pos o h e = ground arith
extends-bit_offset (field n s fs) (field n' t gs) m pos o h e = ground (
  arith,
  eq_iff n n',
  same_type-eq s t,
  extends-bit_offset fs gs m (round_up pos (8 * alignof s) + 8 * sizeof s) o,
)
extends-bit_offset (bits n u w fs) (bits n' v x gs) m pos o h e =
    ground (arith, eq_iff n n', extends-bit_offset fs gs m (place_bits pos u w + w) o)
extends-bit_offset (field n s fs) end m pos o h e = ground arith
extends-bit_offset (field n s fs) (bits n' v x gs) m pos o h e = ground arith
extends-bit_offset (bits n u w fs) end m pos o h e = ground arith
extends-bit_offset (bits n u w fs) (field n' t gs) m pos o h e = ground arith
