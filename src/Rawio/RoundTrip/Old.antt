-- ===== src/Rawio/RoundTrip/Old.antt =====
-- Packets of earlier versions, for the types whose struct is written whole.
use libpueorawdata.Prelude.{ℕ, ◌≡◌, true, ◌++◌, length, arith}
use libpueorawdata.Prelude.Int.{pos}
use libpueorawdata.Prelude.Run.{done}
use libpueorawdata.Prelude.Memory.{Bytes}
use libpueorawdata.Datatype.{Kind, size_of}
use libpueorawdata.Versions.{packet_size}
use libpueorawdata.Versions.Bounds.{packet_size_within}
use libpueorawdata.Handle.{Handle}
use libpueorawdata.Handle.File.{File, file_ops}
use libpueorawdata.Packets.Simple.Laws.{is_simple, zero_filled, simple-Reads}
use libpueorawdata.Rawio.{read_typed}
use libpueorawdata.Rawio.RoundTrip.Whole.{latest_version-lt}
use libpueorawdata.Rawio.RoundTrip.{packet_bytes, after_read, IsClean, read_typed-file}

-- For a type of SIMPLE_PUEO_IO_IMPL, a packet of any known version whose payload has that
-- version's size is read by pueo_read_X from a file: the result is the payload's length, the
-- current struct holds the payload with zeros behind it, what stands behind the packet is left,
-- and nothing is printed.
pub read_typed-old :
    (k : Kind) (ver : ℕ) (bs q rest : Bytes) (h : Handle File)
    → is_simple k ≡ true
    → packet_size k ver ≡ pos (length bs)
    → length q ≡ size_of k
    → IsClean h
    → h.aux.unread ≡ packet_bytes k ver bs ++ rest
    → read_typed k file_ops q h
      ≡ done (pos (length bs), zero_filled k bs, after_read k ver bs rest h)
read_typed-old k ver bs q rest h simple size e clean u =
    let within = packet_size_within k ver (length bs) size in
    read_typed-file k ver bs q rest (λ _. zero_filled k bs) h
      (simple-Reads k ver bs simple size within.1) (omega (arith, within.0, latest_version-lt k)) e
      clean u
