-- ===== src/Crc/Bitwise.antt =====
-- The table-driven checksum is the reflected CCITT polynomial division, one bit at a time.
use Prim.Native.Nat.{bit_xor}
use libpueorawdata.Prelude.{
  ℕ, zero, suc, ◌*◌, ◌/◌, ◌%◌, ◌<◌, ◌≡◌, refl, sym, ap, ap₂, ◌∙◌, [], ◌∷◌, arith, get_or, ◌==◌,
  ==_iff, true, if◌then◌else◌, all_below, all_below_sound,
}
use libpueorawdata.Prelude.Memory.{Bytes}
use libpueorawdata.Prelude.Bits.{
  bit_xor_assoc, bit_xor_comm, bit_xor_left_cancel, half-bit_xor, parity-bit_xor, high-bit_xor,
  bit_and-byte, bit_xor-zero, bit_xor_disjoint,
}
use libpueorawdata.Crc.{ccitt_table, ccitt_byte, crc16_continue}

-- One step of the division by x^16 + x^12 + x^5 + 1, the lowest bit first.
unfoldable pub divide_bit : ℕ → ℕ
divide_bit r = if r % 2 == 0 then r / 2 else bit_xor (r / 2) 0x8408

unfoldable pub divide_bits : ℕ → ℕ → ℕ
unfolding divide_bit
divide_bits zero r = r
divide_bits (suc n) r = divide_bits n (divide_bit r)

-- A byte is added to the low bits of the remainder, and eight steps follow.
unfoldable pub divide_message : ℕ → Bytes → ℕ
unfolding divide_bits
divide_message r [] = r
divide_message r (b ∷ bs) = divide_message (divide_bits 8 (bit_xor r b)) bs

-- The divisor is taken out twice, or once from either side.
divide_bit-bit_xor : (a b : ℕ) → divide_bit (bit_xor a b) ≡ bit_xor (divide_bit a) (divide_bit b)
unfolding divide_bit
divide_bit-bit_xor a b = ground (
  arith,
  parity-bit_xor a b,
  half-bit_xor a b,
  bit_xor_assoc (a / 2) (b / 2) 0x8408,
  bit_xor_assoc (a / 2) 0x8408 (b / 2),
  bit_xor_comm 0x8408 (b / 2),
  bit_xor_assoc (a / 2) 0x8408 (bit_xor (b / 2) 0x8408),
  bit_xor_left_cancel 0x8408 (b / 2),
)

divide_bits-bit_xor :
    (n a b : ℕ) → divide_bits n (bit_xor a b) ≡ bit_xor (divide_bits n a) (divide_bits n b)
unfolding divide_bits
divide_bits-bit_xor zero a b = refl
divide_bits-bit_xor (suc n) a b =
    ap (divide_bits n) (divide_bit-bit_xor a b)
    ∙ divide_bits-bit_xor n (divide_bit a) (divide_bit b)

divide_bit-even : (x : ℕ) → divide_bit (x * 2) ≡ x
unfolding divide_bit
divide_bit-even x = ground arith

divide_bits-even : (n x y : ℕ) → y ≡ x * 2 → divide_bits (suc n) y ≡ divide_bits n x
unfolding divide_bits
divide_bits-even n x y e = ap (divide_bits n) (ap divide_bit e ∙ divide_bit-even x)

-- Eight zero bits are shifted out.
divide_bits-shift : (h : ℕ) → divide_bits 8 (h * 256) ≡ h
divide_bits-shift h =
    divide_bits-even 7 (h * 128) _ (omega arith)
    ∙ (divide_bits-even 6 (h * 64) _ (omega arith)
        ∙ (divide_bits-even 5 (h * 32) _ (omega arith)
            ∙ (divide_bits-even 4 (h * 16) _ (omega arith)
                ∙ (divide_bits-even 3 (h * 8) _ (omega arith)
                    ∙ (divide_bits-even 2 (h * 4) _ (omega arith)
                        ∙ (divide_bits-even 1 (h * 2) _ (omega arith)
                            ∙ (divide_bits-even 0 h _ (omega arith)
                                ∙ (unfold divide_bits in refl))))))))

table_rows : all_below 256 (λ i. get_or ccitt_table i 0 == divide_bits 8 i) ≡ true
unfolding all_below divide_bits ccitt_table
table_rows = refl

-- Every row of the table is eight steps of the division.
ccitt_table_row : (i : ℕ) → i < 256 → get_or ccitt_table i 0 ≡ divide_bits 8 i
ccitt_table_row i h = (==_iff _ (divide_bits 8 i)).0 (all_below_sound 256 _ i table_rows h)

split_bytes : (r : ℕ) → r ≡ bit_xor (r / 256 * 256) (r % 256)
split_bytes r = omega (arith, bit_xor_disjoint (r / 256) (r % 256) (omega arith))

divide_bits_byte : (r : ℕ) → divide_bits 8 r ≡ bit_xor (r / 256) (get_or ccitt_table (r % 256) 0)
divide_bits_byte r =
    ap (divide_bits 8) (split_bytes r)
    ∙ (divide_bits-bit_xor 8 (r / 256 * 256) (r % 256)
        ∙ ap₂ bit_xor (divide_bits-shift (r / 256)) (sym (ccitt_table_row (r % 256) (omega arith))))

high_byte_kept : (crc c : ℕ) → c < 256 → bit_xor crc c / 256 ≡ crc / 256
high_byte_kept crc c h =
    high-bit_xor crc c ∙ (ap (λ t. bit_xor (crc / 256) t) (omega arith) ∙ bit_xor-zero (crc / 256))

-- A step of the table-driven loop is eight steps of the division.
pub ccitt_byte_lem : (crc c : ℕ) → c < 256 → ccitt_byte crc c ≡ divide_bits 8 (bit_xor crc c)
unfolding ccitt_byte
ccitt_byte_lem crc c h =
    ap₂ (λ hi lo. bit_xor hi (get_or ccitt_table lo 0)) (sym (high_byte_kept crc c h))
      (bit_and-byte (bit_xor crc c))
    ∙ sym (divide_bits_byte (bit_xor crc c))

abbrev pub AllBytes : Bytes → Type 0
AllBytes [] = Unit {0}
AllBytes (b ∷ bs) = (b < 256) × AllBytes bs

-- On bytes, the table-driven checksum of a message is the remainder of its bit-by-bit division by
-- the reflected CCITT polynomial, from every starting value.
pub crc16_continue-eq-divide_message :
    (crc : ℕ) (bs : Bytes) → AllBytes bs → crc16_continue crc bs ≡ divide_message crc bs
unfolding crc16_continue divide_message
crc16_continue-eq-divide_message crc [] h = refl
crc16_continue-eq-divide_message crc (b ∷ bs) h =
    crc16_continue-eq-divide_message (ccitt_byte crc b) bs h.1
    ∙ ap (λ t. divide_message t bs) (ccitt_byte_lem crc b h.0)
