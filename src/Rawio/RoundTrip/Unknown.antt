-- ===== src/Rawio/RoundTrip/Unknown.antt =====
-- Packets of a later version than the library knows, for the types whose struct is written whole.
use libpueorawdata.Prelude.{ℕ, ◌<◌, ◌≡◌, true, false, ap, ◌∙◌, ◌++◌, append_assoc}
use libpueorawdata.Prelude.Int.{negsuc}
use libpueorawdata.Prelude.Run.{done, fault, out_of_bounds}
use libpueorawdata.Prelude.Memory.{Bytes}
use libpueorawdata.Datatype.{Kind, latest_version}
use libpueorawdata.Versions.Bounds.{packet_size_unknown}
use libpueorawdata.Handle.{Handle}
use libpueorawdata.Handle.File.{File, file_ops}
use libpueorawdata.Handle.Header.{encode_head, decode_head}
use libpueorawdata.Packets.Simple.{header_for_simple, read_simple}
use libpueorawdata.Packets.Simple.Laws.{is_simple, header_is_simple, read_is_simple}
use libpueorawdata.Packets.Dispatch.{packet_header_for, read_packet}
use libpueorawdata.Packets.Codec.{head_of}
use libpueorawdata.Rawio.{read_body, read_typed}
use libpueorawdata.Rawio.RoundTrip.{
  packet_bytes, after_head, IsClean, decoded, maybe_read_header-file, head_of-type, head_of-version,
}

header_for-unknown :
    (k : Kind) (p : Bytes) (ver : ℕ)
    → is_simple k ≡ true
    → latest_version k < ver
    → packet_header_for k p ver ≡ fault out_of_bounds
unfolding header_for_simple
header_for-unknown k p ver simple later =
    header_is_simple k p ver simple ∙ rw (packet_size_unknown k ver later, header_for_simple)

read_packet-unknown :
    (k : Kind) (p : Bytes) (ver : ℕ) (h : Handle File)
    → is_simple k ≡ true
    → latest_version k < ver
    → read_packet k file_ops p ver h ≡ done (negsuc 0, p, h)
unfolding read_simple
read_packet-unknown k p ver h simple later =
    read_is_simple k file_ops p ver h simple ∙ rw (packet_size_unknown k ver later, read_simple)

-- When a file goes on with a packet of a type of SIMPLE_PUEO_IO_IMPL and of a later version than
-- PUEO_X_VER, pueo_read_X computes the checksum of more bytes than the object has and reads
-- outside it.
pub read_typed-unknown :
    (k : Kind) (ver : ℕ) (bs q rest : Bytes) (h : Handle File)
    → is_simple k ≡ true
    → latest_version k < ver
    → ver < 16
    → IsClean h
    → h.aux.unread ≡ packet_bytes k ver bs ++ rest
    → read_typed k file_ops q h ≡ fault out_of_bounds
unfolding read_typed read_body
read_typed-unknown k ver bs q rest h simple later small clean u =
    let version : (decode_head (encode_head (head_of k ver bs))).version ≡ ver =
      ap (λ t. t.version) (decoded k ver bs) ∙ head_of-version k ver bs small in
    rw (
      maybe_read_header-file k ver bs (bs ++ rest) h clean
          (u ∙ append_assoc (encode_head (head_of k ver bs)) bs rest),
      version,
      read_packet-unknown k q ver
          (record (after_head k ver bs (bs ++ rest) h) { already_read_head = false }) simple later,
      version,
      header_for-unknown k q ver simple later,
      decoded k ver bs,
      head_of-type k ver bs,
    )
