-- ===== src/Rawio.antt =====
-- src/rawio.c: packets with their headers, through a handle.
pub mod Packet
pub mod Short
pub mod Stream
pub mod Datagram
pub mod RoundTrip
use libpueorawdata.Prelude.{
  ℕ, Bool, ◌+◌, ◌%◌, ◌^◌, true, false, ◌==◌, if◌then◌else◌, not, ◌&&◌, Option, none, some, ◌∷◌,
}
use libpueorawdata.Prelude.Int.{ℤ, pos, negsuc, ◌+ℤ◌, is_negative, is_ℕ, is_negsuc, add64}
use libpueorawdata.Prelude.Run.{Run, done, assert_failed, check, ◌>>=◌, ◌>>◌}
use libpueorawdata.Prelude.Memory.{Bytes, u8_at}
use libpueorawdata.Datatype.{Kind, code, of_code, latest_version}
use libpueorawdata.Handle.{Handle, Ops, put_bytes, get_bytes, checksum_failed, length_failed}
use libpueorawdata.Handle.Header.{Head, encode_head, decode_head}
use libpueorawdata.Packets.Dispatch.{packet_header_for, write_packet, read_packet}

-- stdio's EOF.
abbrev pub eof : ℤ
eof = negsuc 0

abbrev pub is_eof : ℤ → Bool
is_eof r = is_negsuc r 0

abbrev pub head_size : ℕ
head_size = 8

-- The header is read unless it was read before. A failed read is no end of file here, and a
-- number of bytes below 8 passes if the byte at the place of `f1` is right.
unfoldable pub maybe_read_header : {S : Type 0} → Ops S → Handle S → Run (ℤ × Handle S)
maybe_read_header ops h = if h.already_read_head then done (pos 0, h) else do
  (nread, head, h) ← get_bytes ops head_size 0 h.last_read_header h
  let h = record h { last_read_header = head }
  if is_ℕ nread 0 then done (eof, h) else do
    check (u8_at head 4 == 0xf1) assert_failed
    done (nread, record h { bytes_read = add64 h.bytes_read nread; already_read_head = true })

-- The two messages of `pueo_read_X`: the header that was read against the one computed anew from
-- the packet, and against the number of bytes read.
unfoldable pub compare_heads : {S : Type 0} → ℤ → Head → Head → Handle S → Handle S
compare_heads nrd hd again h =
    let h' = (if again.cksum == hd.cksum then h else record h { log = checksum_failed ∷ h.log }) in
    if is_ℕ nrd hd.num_bytes && hd.num_bytes == again.num_bytes
    then h'
    else record h' { log = length_failed ∷ h'.log }

-- The branch of `pueo_read_X` for a header of its type.
unfoldable pub read_body :
    {S : Type 0} → Kind → Ops S → Bytes → Handle S → Run (ℤ × Bytes × Handle S)
read_body k ops p h = do
  let hd = decode_head h.last_read_header
  (nrd, p, h) ← read_packet k ops p hd.version (record h { already_read_head = false })
  let h = record h { bytes_read = add64 h.bytes_read nrd }
  let hd = decode_head h.last_read_header
  again ← packet_header_for k p hd.version
  done (nrd, p, compare_heads nrd hd again h)

-- `pueo_read_X`, with `p` the object that is read into.
unfoldable pub read_typed :
    {S : Type 0} → Kind → Ops S → Bytes → Handle S → Run (ℤ × Bytes × Handle S)
read_typed k ops p h = do
  (nread, h) ← maybe_read_header ops h
  if is_eof nread
      then done (eof, p, h)
      else if (decode_head h.last_read_header).type == code k
      then read_body k ops p h
      else done (pos 0, p, h)

-- `h->done_write_packet(h)`, if it is set.
unfoldable pub finish_packet : {S : Type 0} → Ops S → Handle S → ℤ × Handle S
finish_packet ops h = elim ops.done_write_packet [ none ↦ (pos 0, h) | some f ↦ f h ]

-- `pueo_write_X`.
unfoldable pub write_typed : {S : Type 0} → Kind → Ops S → Bytes → Handle S → Run (ℤ × Handle S)
write_typed k ops p h = do
  hd ← packet_header_for k p (latest_version k)
  (ret, h) ← put_bytes ops (encode_head hd) h
  if not (is_ℕ ret head_size) then done (negsuc 0, h) else do
    (ret2, h) ← write_packet k ops p (record h { bytes_written = add64 h.bytes_written ret })
    let (ret3, h3) = finish_packet ops h
    if is_negative ret2
        then done (ret2, h)
        else if not (is_ℕ ret3 0)
        then done (ret3, h3)
        else done (
          ret +ℤ ret2,
          record h3 {
            bytes_written = add64 h3.bytes_written ret2;
            packet_write_counter = (h3.packet_write_counter + 1) % 2 ^ 32;
          },
        )

-- `pueo_ll_write`.
unfoldable pub ll_write : {S : Type 0} → Ops S → ℕ → Bytes → Handle S → Run (ℤ × Handle S)
ll_write ops type p h = elim (of_code type) [
  | none ↦ done (negsuc 0, h)
  | some k ↦ write_typed k ops p h
]
