-- ===== src/Prelude/Bits.antt =====
-- The laws of `^` on unsigned numbers. The libraries have none at variables: these come from the
-- recursion on binary digits that the native operation stands for.
use Prim.Native.Nat.{digits, bitwise, differ, bit_xor, bit_and, bit_xor-bitwise, bit_and-bitwise}
use native.Mathlib.Nat.{le_refl, pow-suc}
use mathlib.Core.Path.{◌≡◌, refl, sym, ap, ap₂, ◌∙◌}
use Prim.Native.Nat.{ℕ, zero, suc, ◌+◌, ◌-◌, ◌*◌, ◌/◌, ◌%◌, ◌^◌, ◌≤◌, ◌<◌, min}
use native.Mathlib.Omega.{arith}

-- `digits` with more fuel than the number it takes apart.
module _ (last : ℕ → ℕ) (op : ℕ → ℕ → ℕ) where
  spare_fuel : (k y : ℕ) → digits last op k 0 y ≡ digits last op 0 0 y
  spare_fuel zero y = refl
  spare_fuel (suc k) y = refl

  extra_fuel : (bound k x y : ℕ) → x ≤ bound → digits last op (k + x) x y ≡ digits last op x x y
  extra_fuel bound k zero y h = spare_fuel (k + 0) y
  extra_fuel zero k (suc x) y h = absurd (omega arith)
  extra_fuel (suc bound) k (suc x) y h =
      let half : ℕ = suc x / 2 in
      let front : k + suc x ≡ suc (k + x) = omega arith in
      let more : k + x ≡ k + (x - suc x / 2) + suc x / 2 = omega arith in
      let enough : x ≡ x - suc x / 2 + suc x / 2 = omega arith in
      ap (λ n. digits last op n (suc x) y) front
      ∙ ap (λ t. t * 2 + op (suc x % 2) (y % 2))
          (ap (λ n. digits last op n (suc x / 2) (y / 2)) more
            ∙ extra_fuel bound (k + (x - half)) half (y / 2) (omega arith)
            ∙ sym (extra_fuel bound (x - half) half (y / 2) (omega arith))
            ∙ ap (λ n. digits last op n (suc x / 2) (y / 2)) (sym enough))

  -- The operation splits off the lowest digits.
  bitwise-halves :
      (x y : ℕ)
      → bitwise last op (suc x) y ≡ bitwise last op (suc x / 2) (y / 2) * 2 + op (suc x % 2) (y % 2)
  bitwise-halves x y =
      let enough : x ≡ x - suc x / 2 + suc x / 2 = omega arith in
      ap (λ t. t * 2 + op (suc x % 2) (y % 2))
        (ap (λ n. digits last op n (suc x / 2) (y / 2)) enough
          ∙ extra_fuel x (x - suc x / 2) (suc x / 2) (y / 2) (omega arith))

differ_digits : (x y : ℕ) → x < 2 → y < 2 → differ x y ≡ (x + y) % 2
differ_digits zero y p q = omega arith
differ_digits (suc zero) zero p q = omega arith
differ_digits (suc zero) (suc zero) p q = refl
differ_digits (suc zero) (suc (suc y)) p q = absurd (omega arith)
differ_digits (suc (suc x)) y p q = absurd (omega arith)

pub zero-bit_xor : (b : ℕ) → bit_xor 0 b ≡ b
zero-bit_xor b = bit_xor-bitwise 0 b

-- The lowest digit is the sum of the digits without its carry.
pub bit_xor_step : (a b : ℕ) → bit_xor a b ≡ bit_xor (a / 2) (b / 2) * 2 + (a + b) % 2
bit_xor_step zero b = omega (arith, zero-bit_xor b, zero-bit_xor (b / 2))
bit_xor_step (suc a) b = omega (
  arith,
  bit_xor-bitwise (suc a) b,
  bit_xor-bitwise (suc a / 2) (b / 2),
  bitwise-halves (λ y. y) differ a b,
  differ_digits (suc a % 2) (b % 2) (omega arith) (omega arith),
)

-- Each law is an induction on a bound of the first number.
bit_xor-zero_fuel : (n a : ℕ) → a ≤ n → bit_xor a 0 ≡ a
bit_xor-zero_fuel n zero h = zero-bit_xor 0
bit_xor-zero_fuel zero (suc a) h = absurd (omega arith)
bit_xor-zero_fuel (suc n) (suc a) h =
    omega (arith, bit_xor_step (suc a) 0, bit_xor-zero_fuel n (suc a / 2) (omega arith))

pub bit_xor-zero : (a : ℕ) → bit_xor a 0 ≡ a
bit_xor-zero a = bit_xor-zero_fuel a a (le_refl a)

comm_fuel : (n a b : ℕ) → a ≤ n → bit_xor a b ≡ bit_xor b a
comm_fuel n zero b h = omega (arith, zero-bit_xor b, bit_xor-zero b)
comm_fuel zero (suc a) b h = absurd (omega arith)
comm_fuel (suc n) (suc a) b h = omega (
  arith,
  bit_xor_step (suc a) b,
  bit_xor_step b (suc a),
  comm_fuel n (suc a / 2) (b / 2) (omega arith),
)

pub bit_xor_comm : (a b : ℕ) → bit_xor a b ≡ bit_xor b a
bit_xor_comm a b = comm_fuel a a b (le_refl a)

pub half-bit_xor : (a b : ℕ) → bit_xor a b / 2 ≡ bit_xor (a / 2) (b / 2)
half-bit_xor a b = omega (arith, bit_xor_step a b)

pub parity-bit_xor : (a b : ℕ) → bit_xor a b % 2 ≡ (a + b) % 2
parity-bit_xor a b = omega (arith, bit_xor_step a b)

assoc_fuel : (n a b c : ℕ) → a ≤ n → bit_xor (bit_xor a b) c ≡ bit_xor a (bit_xor b c)
assoc_fuel n zero b c h =
    ap (λ t. bit_xor t c) (zero-bit_xor b) ∙ omega (arith, zero-bit_xor (bit_xor b c))
assoc_fuel zero (suc a) b c h = absurd (omega arith)
assoc_fuel (suc n) (suc a) b c h = omega (
  arith,
  bit_xor_step (bit_xor (suc a) b) c,
  bit_xor_step (suc a) (bit_xor b c),
  ap (λ t. bit_xor t (c / 2)) (half-bit_xor (suc a) b),
  ap (λ t. bit_xor (suc a / 2) t) (half-bit_xor b c),
  parity-bit_xor (suc a) b,
  parity-bit_xor b c,
  assoc_fuel n (suc a / 2) (b / 2) (c / 2) (omega arith),
)

pub bit_xor_assoc : (a b c : ℕ) → bit_xor (bit_xor a b) c ≡ bit_xor a (bit_xor b c)
bit_xor_assoc a b c = assoc_fuel a a b c (le_refl a)

self_fuel : (n a : ℕ) → a ≤ n → bit_xor a a ≡ 0
self_fuel n zero h = zero-bit_xor 0
self_fuel zero (suc a) h = absurd (omega arith)
self_fuel (suc n) (suc a) h =
    omega (arith, bit_xor_step (suc a) (suc a), self_fuel n (suc a / 2) (omega arith))

pub bit_xor_self : (a : ℕ) → bit_xor a a ≡ 0
bit_xor_self a = self_fuel a a (le_refl a)

-- What was put in by `^` is taken out by it.
pub bit_xor_cancel : (a b : ℕ) → bit_xor (bit_xor a b) b ≡ a
bit_xor_cancel a b = bit_xor_assoc a b b ∙ ap (λ t. bit_xor a t) (bit_xor_self b) ∙ bit_xor-zero a

pub bit_xor_left_cancel : (a b : ℕ) → bit_xor a (bit_xor a b) ≡ b
bit_xor_left_cancel a b =
    bit_xor_comm a (bit_xor a b) ∙ (ap (λ t. bit_xor t a) (bit_xor_comm a b) ∙ bit_xor_cancel b a)

-- Two numbers below a power of two stay below it.
pub bit_xor-lt : (k a b : ℕ) → a < 2 ^ k → b < 2 ^ k → bit_xor a b < 2 ^ k
bit_xor-lt zero a b p q = omega (arith, ap (λ t. bit_xor t b) (zero_of_lt a p), zero-bit_xor b)
  where
    zero_of_lt : (t : ℕ) → t < 2 ^ 0 → t ≡ 0
    zero_of_lt t h = omega arith
bit_xor-lt (suc k) a b p q = omega (
  arith,
  pow-suc 2 k,
  bit_xor_step a b,
  bit_xor-lt k (a / 2) (b / 2) (omega (arith, pow-suc 2 k)) (omega (arith, pow-suc 2 k)),
)

-- The upper byte and the lower byte are combined apart.
pub high-bit_xor : (a b : ℕ) → bit_xor a b / 256 ≡ bit_xor (a / 256) (b / 256)
high-bit_xor a b = omega (
  arith,
  half-bit_xor a b,
  half-bit_xor (a / 2) (b / 2),
  half-bit_xor (a / 2 / 2) (b / 2 / 2),
  half-bit_xor (a / 2 / 2 / 2) (b / 2 / 2 / 2),
  half-bit_xor (a / 2 / 2 / 2 / 2) (b / 2 / 2 / 2 / 2),
  half-bit_xor (a / 2 / 2 / 2 / 2 / 2) (b / 2 / 2 / 2 / 2 / 2),
  half-bit_xor (a / 2 / 2 / 2 / 2 / 2 / 2) (b / 2 / 2 / 2 / 2 / 2 / 2),
  half-bit_xor (a / 2 / 2 / 2 / 2 / 2 / 2 / 2) (b / 2 / 2 / 2 / 2 / 2 / 2 / 2),
  ap (λ t. bit_xor t (b / 256)) (eighths a),
  ap (λ t. bit_xor (a / 2 / 2 / 2 / 2 / 2 / 2 / 2 / 2) t) (eighths b),
)
  where
    eighths : (t : ℕ) → t / 2 / 2 / 2 / 2 / 2 / 2 / 2 / 2 ≡ t / 256
    eighths t = omega arith

twice_field : (q k : ℕ) → q * 2 ^ suc k ≡ 2 * (q * 2 ^ k)
twice_field q k = omega (arith, ap (λ (t : ℕ). q * t) (pow-suc 2 k))

bit_xor_fields :
    (k q s r t : ℕ)
    → r < 2 ^ k
    → t < 2 ^ k
    → bit_xor (q * 2 ^ k + r) (s * 2 ^ k + t) ≡ bit_xor q s * 2 ^ k + bit_xor r t
bit_xor_fields zero q s r t hr ht = ground (arith, zero-bit_xor t)
bit_xor_fields (suc k) q s r t hr ht = ground (
  arith,
  pow-suc 2 k,
  twice_field q k,
  twice_field s k,
  twice_field (bit_xor q s) k,
  bit_xor_step (q * 2 ^ suc k + r) (s * 2 ^ suc k + t),
  bit_xor_step r t,
  bit_xor_fields k q s (r / 2) (t / 2),
)

pub low-bit_xor : (a b : ℕ) → bit_xor a b % 256 ≡ bit_xor (a % 256) (b % 256)
low-bit_xor a b = ground (
  arith,
  bit_xor_fields 8 (a / 256) (b / 256) (a % 256) (b % 256),
  bit_xor-lt 8 (a % 256) (b % 256),
)

bit_and_digit : (a b : ℕ) → bit_and a b ≡ bit_and (a / 2) (b / 2) * 2 + min (a % 2) (b % 2)
bit_and_digit zero b = omega (arith, bit_and-bitwise 0 b, bit_and-bitwise 0 (b / 2))
bit_and_digit (suc a) b = omega (
  arith,
  bit_and-bitwise (suc a) b,
  bit_and-bitwise (suc a / 2) (b / 2),
  bitwise-halves (λ y. 0) min a b,
)

-- Nothing is left of a mask without ones, for numbers up to a bound.
masked_out : (bound x : ℕ) → x ≤ bound → bit_and x 0 ≡ 0
masked_out bound zero h = refl
masked_out zero (suc x) h = absurd (omega arith)
masked_out (suc bound) (suc x) h =
    let digit = bit_and_digit (suc x) 0 in
    let rest = masked_out bound (suc x / 2) (omega arith) in omega (arith, digit, rest)

-- A mask that ends in a one keeps the lowest digit.
bit_and_odd : (a m : ℕ) → bit_and a (m * 2 + 1) ≡ bit_and (a / 2) m * 2 + a % 2
bit_and_odd a m = omega (arith, bit_and_digit a (m * 2 + 1), ap (λ t. bit_and (a / 2) t) (halved m))
  where
    halved : (t : ℕ) → (t * 2 + 1) / 2 ≡ t
    halved t = omega arith

-- `x & 0xff`.
pub bit_and-byte : (a : ℕ) → bit_and a 0xff ≡ a % 256
bit_and-byte a = omega (
  arith,
  bit_and_odd a 127,
  bit_and_odd (a / 2) 63,
  bit_and_odd (a / 2 / 2) 31,
  bit_and_odd (a / 2 / 2 / 2) 15,
  bit_and_odd (a / 2 / 2 / 2 / 2) 7,
  bit_and_odd (a / 2 / 2 / 2 / 2 / 2) 3,
  bit_and_odd (a / 2 / 2 / 2 / 2 / 2 / 2) 1,
  bit_and_odd (a / 2 / 2 / 2 / 2 / 2 / 2 / 2) 0,
  masked_out (a / 2 / 2 / 2 / 2 / 2 / 2 / 2 / 2) (a / 2 / 2 / 2 / 2 / 2 / 2 / 2 / 2) (le_refl _),
)

-- `^` of two numbers that share no byte is their sum.
pub bit_xor_disjoint : (q r : ℕ) → r < 256 → bit_xor (q * 256) r ≡ q * 256 + r
bit_xor_disjoint q r h = omega (
  arith,
  ap₂ bit_xor (padded q) (lone r),
  bit_xor_fields 8 q 0 0 r (omega arith) h,
  bit_xor-zero q,
  zero-bit_xor r,
)
  where
    padded : (t : ℕ) → t * 256 ≡ t * 2 ^ 8 + 0
    padded t = omega arith

    lone : (t : ℕ) → t ≡ 0 * 2 ^ 8 + t
    lone t = omega arith
