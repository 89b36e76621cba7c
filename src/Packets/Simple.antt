-- ===== src/Packets/Simple.antt =====
-- SIMPLE_PUEO_IO_IMPL of src/rawio_packets.c: the packet types whose struct is written whole, and
-- whose earlier versions are shorter.
pub mod Laws
use libpueorawdata.Prelude.{ℕ, ◌-◌, ltb, if◌then◌else◌}
use libpueorawdata.Prelude.Int.{ℤ, pos, negsuc}
use libpueorawdata.Prelude.Run.{Run, done, fault, out_of_bounds, ◌>>=◌}
use libpueorawdata.Prelude.Memory.{Bytes, load, clear}
use libpueorawdata.Crc.{crc16}
use libpueorawdata.Datatype.{Kind, size_of}
use libpueorawdata.Versions.{packet_size}
use libpueorawdata.Handle.{Handle, Ops, put_bytes, get_bytes}
use libpueorawdata.Handle.Header.{Head, make_head}

-- An unknown version has the size -1, which is `SIZE_MAX` as the length of the checksum's buffer.
unfoldable pub header_for_simple : Kind → Bytes → ℕ → Run Head
header_for_simple k p ver = elim (packet_size k ver) [
  | negsuc _ ↦ fault out_of_bounds
  | pos n ↦ load 0 n p >>= λ bs. done (make_head k ver (crc16 bs) n)
]

unfoldable pub write_simple : {S : Type 0} → Kind → Ops S → Bytes → Handle S → Run (ℤ × Handle S)
write_simple k ops p h = load 0 (size_of k) p >>= λ bs. put_bytes ops bs h

unfoldable pub read_simple :
    {S : Type 0} → Kind → Ops S → Bytes → ℕ → Handle S → Run (ℤ × Bytes × Handle S)
read_simple k ops p ver h = elim (packet_size k ver) [
  | negsuc _ ↦ done (negsuc 0, p, h)
  | pos versize ↦ if ltb (size_of k) versize then done (negsuc 0, p, h) else do
    (nread, p, h) ← get_bytes ops versize 0 p h
    p ← clear versize (size_of k - versize) p
    done (nread, p, h)
]
