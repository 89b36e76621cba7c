-- ===== src/Crc/Detect.antt =====
-- Errors that the checksum finds: each step loses nothing of the checksum so far, so messages that
-- differ in one byte have different checksums.
use Prim.Native.Nat.{bit_xor}
use libpueorawdata.Prelude.{
  ℕ, ◌+◌, ◌/◌, ◌%◌, ◌<◌, ◌≡◌, ◌≢◌, refl, sym, ap, ap₂, ◌∙◌, List, [], ◌∷◌, ◌++◌, arith, get_or,
  ◌==◌, ==_iff, ltb, ltb→lt, true, if◌then◌else◌, all_below, all_below_sound,
}
use libpueorawdata.Prelude.Memory.{Bytes}
use libpueorawdata.Prelude.Bits.{
  bit_xor-lt, high-bit_xor, low-bit_xor, zero-bit_xor, bit_xor_cancel, bit_xor_left_cancel,
  bit_and-byte,
}
use libpueorawdata.Crc.{ccitt_table, ccitt_byte, crc16_continue, crc16}

abbrev row : ℕ → ℕ
row i = get_or ccitt_table i 0

-- The index of the first row with a given upper byte.
row_from : List ℕ → ℕ → ℕ → ℕ
row_from [] high i = i
row_from (t ∷ ts) high i = if t / 256 == high then i else row_from ts high (i + 1)

rows_differ : all_below 256 (λ i. row_from ccitt_table (row i / 256) 0 == i) ≡ true
unfolding all_below row_from ccitt_table
rows_differ = refl

rows_fit : all_below 256 (λ i. ltb (row i) 65536) ≡ true
unfolding all_below ccitt_table
rows_fit = refl

row-injective : (i j : ℕ) → i < 256 → j < 256 → row i / 256 ≡ row j / 256 → i ≡ j
row-injective i j hi hj e =
    sym ((==_iff _ i).0 (all_below_sound 256 _ i rows_differ hi))
    ∙ (ap (λ t. row_from ccitt_table t 0) e
        ∙ (==_iff _ j).0 (all_below_sound 256 _ j rows_differ hj))

row-lt : (i : ℕ) → i < 256 → row i < 65536
row-lt i h = ltb→lt (row i) 65536 (all_below_sound 256 _ i rows_fit h)

ccitt_byte-row : (crc c : ℕ) → ccitt_byte crc c ≡ bit_xor (crc / 256) (row (bit_xor crc c % 256))
unfolding ccitt_byte
ccitt_byte-row crc c = ap (λ t. bit_xor (crc / 256) (row t)) (bit_and-byte (bit_xor crc c))

pub ccitt_byte-lt : (crc c : ℕ) → crc < 65536 → ccitt_byte crc c < 65536
ccitt_byte-lt crc c h =
    rw (ccitt_byte-row crc c)
      (bit_xor-lt 16 (crc / 256) (row (bit_xor crc c % 256)) (omega arith) (row-lt _ (omega arith)))

high-ccitt_byte :
    (crc c : ℕ) → crc < 65536 → ccitt_byte crc c / 256 ≡ row (bit_xor crc c % 256) / 256
high-ccitt_byte crc c h =
    ap (λ t. t / 256) (ccitt_byte-row crc c)
    ∙ (high-bit_xor (crc / 256) (row (bit_xor crc c % 256))
        ∙ (ap (λ t. bit_xor t (row (bit_xor crc c % 256) / 256)) (omega arith) ∙ zero-bit_xor _))

-- Equal results come from one row of the table and one upper byte.
same_row :
    (a b c d : ℕ)
    → a < 65536
    → b < 65536
    → ccitt_byte a c ≡ ccitt_byte b d
    → (bit_xor a c % 256 ≡ bit_xor b d % 256) × (a / 256 ≡ b / 256)
same_row a b c d ha hb e = (index, upper)
  where
    index : bit_xor a c % 256 ≡ bit_xor b d % 256
    index =
        row-injective _ _ (omega arith) (omega arith)
          (sym (high-ccitt_byte a c ha) ∙ (ap (λ t. t / 256) e ∙ high-ccitt_byte b d hb))

    upper : a / 256 ≡ b / 256
    upper =
        sym (bit_xor_cancel (a / 256) (row (bit_xor a c % 256)))
        ∙ (ap₂ bit_xor (sym (ccitt_byte-row a c) ∙ (e ∙ ccitt_byte-row b d)) (ap row index)
            ∙ bit_xor_cancel (b / 256) (row (bit_xor b d % 256)))

low_bytes :
    (a b c d : ℕ)
    → bit_xor a c % 256 ≡ bit_xor b d % 256
    → bit_xor (a % 256) (c % 256) ≡ bit_xor (b % 256) (d % 256)
low_bytes a b c d e = sym (low-bit_xor a c) ∙ (e ∙ low-bit_xor b d)

-- The checksum so far can be told from the next one.
ccitt_byte-injective : (a b c : ℕ) → a < 65536 → b < 65536 → ccitt_byte a c ≡ ccitt_byte b c → a ≡ b
ccitt_byte-injective a b c ha hb e =
    let (index, upper) = same_row a b c c ha hb e in
    let lower : a % 256 ≡ b % 256 =
      sym (bit_xor_cancel (a % 256) (c % 256))
      ∙ (ap (λ t. bit_xor t (c % 256)) (low_bytes a b c c index)
          ∙ bit_xor_cancel (b % 256) (c % 256)) in
    omega arith

ccitt_byte-injective_right :
    (crc c d : ℕ) → crc < 65536 → c < 256 → d < 256 → ccitt_byte crc c ≡ ccitt_byte crc d → c ≡ d
ccitt_byte-injective_right crc c d h hc hd e =
    let (index, upper) = same_row crc crc c d h h e in
    let lower : c % 256 ≡ d % 256 =
      sym (bit_xor_left_cancel (crc % 256) (c % 256))
      ∙ (ap (bit_xor (crc % 256)) (low_bytes crc crc c d index)
          ∙ bit_xor_left_cancel (crc % 256) (d % 256)) in
    omega arith

crc16_continue-injective :
    (a b : ℕ) (bs : Bytes)
    → a < 65536
    → b < 65536
    → crc16_continue a bs ≡ crc16_continue b bs
    → a ≡ b
unfolding crc16_continue
crc16_continue-injective a b [] ha hb e = e
crc16_continue-injective a b (x ∷ bs) ha hb e = ccitt_byte-injective a b x ha hb (
    crc16_continue-injective (ccitt_byte a x) (ccitt_byte b x) bs (ccitt_byte-lt a x ha)
      (ccitt_byte-lt b x hb) e)

pub crc16_continue-lt : (crc : ℕ) (bs : Bytes) → crc < 65536 → crc16_continue crc bs < 65536
unfolding crc16_continue
crc16_continue-lt crc [] h = h
crc16_continue-lt crc (b ∷ bs) h = crc16_continue-lt (ccitt_byte crc b) bs (ccitt_byte-lt crc b h)

-- The checksum of two pieces is that of the first, continued over the second.
pub crc16_continue-append :
    (crc : ℕ) (xs ys : Bytes)
    → crc16_continue crc (xs ++ ys) ≡ crc16_continue (crc16_continue crc xs) ys
unfolding crc16_continue
crc16_continue-append crc [] ys = refl
crc16_continue-append crc (x ∷ xs) ys = crc16_continue-append (ccitt_byte crc x) xs ys

-- Two messages that differ in exactly one byte, at any place, have different checksums.
pub crc16_detects_byte :
    (before after : Bytes) (c d : ℕ)
    → c < 256
    → d < 256
    → c ≢ d
    → crc16 (before ++ c ∷ after) ≢ crc16 (before ++ d ∷ after)
unfolding crc16 crc16_continue
crc16_detects_byte before after c d hc hd other e =
    let start = crc16_continue 0xffff before in
    let bound : start < 65536 = crc16_continue-lt 0xffff before (omega arith) in
    other (
      ccitt_byte-injective_right start c d bound hc hd (
        crc16_continue-injective (ccitt_byte start c) (ccitt_byte start d) after
          (ccitt_byte-lt start c bound) (ccitt_byte-lt start d bound)
          (sym (crc16_continue-append 0xffff before (c ∷ after))
            ∙ (e ∙ crc16_continue-append 0xffff before (d ∷ after)))))
