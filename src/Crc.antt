-- ===== src/Crc.antt =====
-- src/pueocrc.c: the 16-bit checksum of packet headers.
mod Table
pub mod Bitwise
pub mod Detect
unfoldable pub use Table.{ccitt_table}
use Prim.Native.Nat.{bit_and, bit_xor}
use libpueorawdata.Prelude.{ℕ, ◌/◌, List, [], ◌∷◌, get_or}
use libpueorawdata.Prelude.Memory.{Bytes}

unfoldable pub ccitt_byte : ℕ → ℕ → ℕ
ccitt_byte crc c = bit_xor (crc / 256) (get_or ccitt_table (bit_and (bit_xor crc c) 0xff) 0)

-- The list holds the `len` bytes of the buffer.
unfoldable pub crc16_continue : ℕ → Bytes → ℕ
unfolding ccitt_byte
crc16_continue crc [] = crc
crc16_continue crc (b ∷ bs) = crc16_continue (ccitt_byte crc b) bs

abbrev pub crc16_start : ℕ
crc16_start = 0xffff

unfoldable pub crc16 : Bytes → ℕ
unfolding crc16_continue
crc16 bs = crc16_continue crc16_start bs
