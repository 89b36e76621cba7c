-- ===== src/Rawio/Short.antt =====
-- pueo_write_X of src/rawio.c over descriptors and zlib when a write comes short.
use libpueorawdata.Prelude.{ℕ, ◌+◌, ◌%◌, ◌^◌, ◌≡◌, ◌∙◌, true, false, length, take_all, arith}
use libpueorawdata.Prelude.Int.{pos, negsuc, is_ℕ, add64}
use libpueorawdata.Prelude.Memory.{Bytes}
use libpueorawdata.Prelude.Run.{done}
use libpueorawdata.Datatype.{Kind, latest_version, size_of}
use libpueorawdata.Handle.{Handle, put_bytes}
use libpueorawdata.Handle.Header.{Head, encode_head}
use libpueorawdata.Handle.Device.{Device, fd_ops, gz_ops, fd_write, gz_write}
use libpueorawdata.Packets.Dispatch.{packet_header_for, write_packet}
use libpueorawdata.Packets.Codec.{head_of}
use libpueorawdata.Packets.Simple.{write_simple}
use libpueorawdata.Packets.Simple.Laws.{is_simple, simple-Writes, write_is_simple}
use libpueorawdata.Prelude.Memory.Pieces.{load_inside}
use libpueorawdata.Rawio.{write_typed, finish_packet}

-- A header that does not go through whole ends the call.
pub write_typed-short :
    {D : Type 0} (dev : Device D) (k : Kind) (p : Bytes) (h : Handle D) (hd : Head)
    → packet_header_for k p (latest_version k) ≡ done hd
    → is_ℕ (dev.write (encode_head hd) h.aux).0 8 ≡ false
    → (write_typed k (fd_ops dev) p h
        ≡ done (negsuc 0, record h { aux = (dev.write (encode_head hd) h.aux).1 }))
      × (write_typed k (gz_ops dev) p h
          ≡ done (negsuc 0, record h { aux = (dev.write (encode_head hd) h.aux).1 }))
unfolding write_typed put_bytes fd_ops gz_ops fd_write gz_write
write_typed-short dev k p h hd header short =
    (rw (write_typed, header, short), rw (write_typed, header, short))

write_simple-device :
    {D : Type 0} (dev : Device D) (k : Kind) (p : Bytes) (h : Handle D)
    → is_simple k ≡ true
    → length p ≡ size_of k
    → (write_packet k (fd_ops dev) p h ≡ done (fd_write dev p h))
      × (write_packet k (gz_ops dev) p h ≡ done (gz_write dev p h))
unfolding write_simple put_bytes fd_ops gz_ops
write_simple-device dev k p h simple e = (
  write_is_simple k (fd_ops dev) p h simple
      ∙ rw (
        write_simple,
        load_inside 0 (size_of k) p (omega arith),
        take_all (size_of k) p (omega arith),
      ),
  write_is_simple k (gz_ops dev) p h simple
      ∙ rw (
        write_simple,
        load_inside 0 (size_of k) p (omega arith),
        take_all (size_of k) p (omega arith),
      ),
)

-- The handle after the header and n bytes of the payload.
abbrev pub after_part : {D : Type 0} → ℕ → D → Handle D → Handle D
after_part n d h = record h {
  bytes_written = add64 (add64 h.bytes_written (pos 8)) (pos n);
  packet_write_counter = (h.packet_write_counter + 1) % 2 ^ 32;
  aux = d;
}

-- When a descriptor or zlib takes the whole header of an object of a type of SIMPLE_PUEO_IO_IMPL
-- and returns n for its payload, whether or not n is all of it, pueo_write_X returns 8 + n and
-- counts n bytes of payload and a packet.
pub write_typed-partial :
    {D : Type 0} (dev : Device D) (k : Kind) (p : Bytes) (h : Handle D) (d d' : D) (n : ℕ)
    → is_simple k ≡ true
    → length p ≡ size_of k
    → dev.write (encode_head (head_of k (latest_version k) p)) h.aux ≡ (pos 8, d)
    → dev.write p d ≡ (pos n, d')
    → (write_typed k (fd_ops dev) p h ≡ done (pos (8 + n), after_part n d' h))
      × (write_typed k (gz_ops dev) p h ≡ done (pos (8 + n), after_part n d' h))
unfolding write_typed finish_packet put_bytes fd_ops gz_ops fd_write gz_write
write_typed-partial dev k p h d d' n simple e head body =
    let between = record h { bytes_written = add64 h.bytes_written (pos 8); aux = d } in
    let (by_fd, by_gz) = write_simple-device dev k p between simple e in
    (
      rw (write_typed, (simple-Writes k p simple e).header, head, by_fd, body),
      rw (write_typed, (simple-Writes k p simple e).header, head, by_gz, body),
    )
