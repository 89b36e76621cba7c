-- ===== src/Layout/Access/Bounds.antt =====
-- A member's bits are a number below 2 to its width.
use native.Mathlib.Nat.{pow-suc, mod-lt}
use libpueorawdata.Prelude.{ℕ, zero, suc, ◌^◌, ◌<◌, ◌≡◌, some, arith}
use libpueorawdata.Prelude.Memory.{Bytes}
use libpueorawdata.Layout.{Ty}
use libpueorawdata.Layout.Access.{Place, locate, bits_at, peek}

pow_pos : (k : ℕ) → 0 < 2 ^ k
pow_pos zero = omega arith
pow_pos (suc k) = omega (arith, pow-suc 2 k, pow_pos k)

bits_at-lt : (m : Bytes) (start width : ℕ) → bits_at m (start, width) < 2 ^ width
unfolding bits_at
bits_at-lt m start width = mod-lt _ (pow_pos width)

pub peek-lt :
    (t : Ty) (m : Bytes) (p : Place) (start width : ℕ)
    → locate t p 0 ≡ some (start, width)
    → peek t m p < 2 ^ width
unfolding peek
peek-lt t m p start width h = rw (peek, h) (bits_at-lt m start width)
