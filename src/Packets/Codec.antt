-- ===== src/Packets/Codec.antt =====
-- What the functions of a packet type promise one another and their callers in src/rawio.c: the
-- interface between the packet types and the streams of packets.
use libpueorawdata.Prelude.{ℕ, ◌^◌, ◌≤◌, ◌<◌, ◌≡◌, ◌++◌, length}
use libpueorawdata.Prelude.Int.{pos}
use libpueorawdata.Prelude.Run.{done}
use libpueorawdata.Prelude.Memory.{Bytes}
use libpueorawdata.Crc.{crc16}
use libpueorawdata.Datatype.{Kind, latest_version, size_of}
use libpueorawdata.Handle.{Handle}
use libpueorawdata.Handle.File.{File, file_ops, wrote, left}
use libpueorawdata.Handle.Header.{Head, make_head}
use libpueorawdata.Packets.Dispatch.{packet_header_for, write_packet, read_packet}

-- The header of a payload.
abbrev pub head_of : Kind → ℕ → Bytes → Head
head_of k ver bs = make_head k ver (crc16 bs) (length bs)

-- `bs` is a payload of the version: it is read whole, makes `result q` of the object `q` that it is
-- read into, and the header computed from that object is the payload's.
pub record Reads (k : Kind) (ver : ℕ) (bs : Bytes) (result : Bytes → Bytes) : Type 0 where
  pub small : length bs < 2 ^ 20
  pub reads :
      (q rest : Bytes) (h : Handle File)
      → length q ≡ size_of k
      → h.aux.unread ≡ bs ++ rest
      → read_packet k file_ops q ver h ≡ done (pos (length bs), result q, left rest h)
  pub header_again :
      (q : Bytes)
      → length q ≡ size_of k
      → packet_header_for k (result q) ver ≡ done (head_of k ver bs)

-- `bs` is the payload that is written for the object `p`.
pub record Writes (k : Kind) (p bs : Bytes) : Type 0 where
  pub header : packet_header_for k p (latest_version k) ≡ done (head_of k (latest_version k) bs)
  pub writes :
      (h : Handle File)
      → length bs ≤ h.aux.room
      → write_packet k file_ops p h ≡ done (pos (length bs), wrote bs h)
