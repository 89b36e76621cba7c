-- ===== src/Tests.antt =====
-- The theorems applied at concrete packets, headers and messages.
pub mod Sample
pub mod Streams
pub mod Sockets
pub mod Later
pub mod Partial
pub mod Ids
pub mod Uris
pub mod Database
pub mod Opening
pub mod Dumping
use libpueorawdata.Prelude.{
  ℕ, ◌≤◌, ◌<◌, ◌≡◌, ◌≢◌, ◌↔◌, refl, true, List, [], ◌∷◌, ◌++◌, length, some, none, arith, sym,
  append-nil, String,
}
use libpueorawdata.Prelude.Int.{pos}
use libpueorawdata.Prelude.Run.{done, ◌>>=◌}
use libpueorawdata.Prelude.Memory.{Bytes}
use libpueorawdata.Layout.{Fields, int, array, end, field, bits, bit_offset}
use libpueorawdata.Layout.Evolution.{extends, extends-bit_offset}
use libpueorawdata.Geometry.{irealsurf_link, irealsurf_slot, imisurf_link, imisurf_slot}
use libpueorawdata.Geometry.Slots.{irealsurf_positions, imisurf_positions, surf_ranges}
use libpueorawdata.Datatype.{Kind, slow, nav_att, code, of_code, size_of, latest_version}
use libpueorawdata.Versions.{packet_size}
use libpueorawdata.Crc.{crc16, crc16_continue, ccitt_table}
use libpueorawdata.Crc.Bitwise.{divide_message, crc16_continue-eq-divide_message}
use libpueorawdata.Crc.Detect.{crc16_detects_byte}
use libpueorawdata.Handle.Header.{Head, encode_head, decode_head, decode_head-encode_head}

-- "123456789" in ASCII.
abbrev digits : Bytes
digits = 0x31 ∷ 0x32 ∷ 0x33 ∷ 0x34 ∷ 0x35 ∷ 0x36 ∷ 0x37 ∷ 0x38 ∷ 0x39 ∷ []

digits_crc : crc16 digits ≡ 0x6f91
unfolding crc16 ccitt_table
digits_crc = refl

crc16_continue-eq-divide_message_example :
    crc16_continue 0xffff (0x31 ∷ 0xff ∷ 0x00 ∷ [])
    ≡ divide_message 0xffff (0x31 ∷ 0xff ∷ 0x00 ∷ [])
crc16_continue-eq-divide_message_example =
    crc16_continue-eq-divide_message 0xffff (0x31 ∷ 0xff ∷ 0x00 ∷ [])
      (omega arith, (omega arith, (omega arith, tt)))

crc16_detects_byte_example :
    crc16 (0x31 ∷ 0x32 ∷ 0x33 ∷ 0x34 ∷ 0x35 ∷ 0x36 ∷ [])
    ≢ crc16 (0x31 ∷ 0x32 ∷ 0x33 ∷ 0xb4 ∷ 0x35 ∷ 0x36 ∷ [])
crc16_detects_byte_example =
    crc16_detects_byte (0x31 ∷ 0x32 ∷ 0x33 ∷ []) (0x35 ∷ 0x36 ∷ []) 0x34 0xb4 (omega arith)
      (omega arith) (omega arith)

abbrev sample_head : Head
sample_head = record { type = 0xa771; cksum = 0xbeef; f1 = 0xf1; version = 3; num_bytes = 0xabcde }

slow_version : 0 ≤ latest_version slow
slow_version = omega arith

-- A struct, and a later version of it.
abbrev old_members : Fields
old_members = field "a" (int 2) (bits "b" 4 3 (field "c" (array 5 (int 1)) end))

abbrev new_members : Fields
new_members = field "a" (int 2) (bits "b" 4 3 (field "c" (array 5 (int 1)) (field "d" (int 4) end)))

extends-bit_offset_example : bit_offset "c" new_members 0 ≡ some 24
extends-bit_offset_example =
    extends-bit_offset old_members new_members "c" 0 24 (unfold extends in refl)
      (unfold bit_offset in refl)
