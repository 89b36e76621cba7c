-- ===== src/Prelude/Int.antt =====
-- C's `int` results as integers over the native numbers. Sums of returned byte counts stay far
-- below 2 ^ 31, so no wrap is written.
use Prim.Native.Nat.{ℕ, suc, ◌+◌, ◌-◌, ◌^◌, ◌%◌}
use mathlib.Core.Path.{◌≡◌, sym, ap}
use mathlib.Core.Logic.{◌≢◌}
use mathlib.Core.Bool.{Bool, true, false, true≢false}
use libpueorawdata.Prelude.Tests.{leb, ◌==◌, ==_refl, if◌then◌else◌}

-- `negsuc n` is -(n + 1).
pub data ℤ : Type 0 where
  pos : ℕ → ℤ
  negsuc : ℕ → ℤ

-- a - b, as an integer.
abbrev pub sub_ℕ : ℕ → ℕ → ℤ
sub_ℕ a b = if leb b a then pos (a - b) else negsuc (b - a - 1)

infixl 65 ◌+ℤ◌
abbrev pub ◌+ℤ◌ : ℤ → ℤ → ℤ
pos a +ℤ pos b = pos (a + b)
pos a +ℤ negsuc b = sub_ℕ a (suc b)
negsuc a +ℤ pos b = sub_ℕ b (suc a)
negsuc a +ℤ negsuc b = negsuc (suc (a + b))

abbrev pub is_negative : ℤ → Bool
is_negative (pos n) = false
is_negative (negsuc n) = true

-- Equality with a number, and `<` a number.
abbrev pub is_ℕ : ℤ → ℕ → Bool
is_ℕ (pos n) m = n == m
is_ℕ (negsuc n) m = false

abbrev pub is_negsuc : ℤ → ℕ → Bool
is_negsuc (pos n) m = false
is_negsuc (negsuc n) m = n == m

-- A `uint64_t` to which an `int` is added: the `int` is converted first, so both wrap.
abbrev pub add64 : ℕ → ℤ → ℕ
add64 a (pos n) = (a + n) % 2 ^ 64
add64 a (negsuc n) = (a + (2 ^ 64 - 1 - n % 2 ^ 64)) % 2 ^ 64

pub is_ℕ-pos : (n : ℕ) → is_ℕ (pos n) n ≡ true
is_ℕ-pos n = ==_refl n

-- The constructors are injective and apart.
abbrev magnitude : ℤ → ℕ
magnitude (pos n) = n
magnitude (negsuc n) = n

pub pos_injective : (m n : ℕ) → pos m ≡ pos n → m ≡ n
pos_injective m n e = ap magnitude e

pub pos-ne-negsuc : (m n : ℕ) → pos m ≢ negsuc n
pos-ne-negsuc m n e = true≢false (sym (ap is_negative e))
