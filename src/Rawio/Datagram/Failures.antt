-- ===== src/Rawio/Datagram/Failures.antt =====
-- What goes wrong on sockets: a `recv` that fails, and a read of no bytes at the end of a datagram.
use libpueorawdata.Prelude.{
  ℕ, ◌≤◌, ◌≡◌, ap, true, false, Option, none, some, List, [], ◌∷◌, length, arith, ◌==◌, leb, le→leb,
  take_all,
}
use libpueorawdata.Prelude.Int.{pos, negsuc, add64}
use libpueorawdata.Prelude.Run.{done, fault, assert_failed}
use libpueorawdata.Prelude.Memory.{Bytes, u8_at, zeros}
use libpueorawdata.Prelude.Memory.Pieces.{store_front}
use libpueorawdata.Handle.{Handle, get_bytes}
use libpueorawdata.Handle.Socket.{Socket, udp_buf_size, reader_ops, socket_readbytes}
use libpueorawdata.Handle.Socket.Laws.{came}
use libpueorawdata.Datatype.{Kind}
use libpueorawdata.Rawio.{eof, maybe_read_header, read_typed}

get_bytes-failed :
    (n : ℕ) (m : Bytes) (rs : List (Option Bytes)) (h : Handle Socket)
    → h.aux.unread ≡ []
    → h.aux.received ≡ none ∷ rs
    → get_bytes reader_ops n 0 m h
      ≡ done (negsuc 0, m, record h { aux = record h.aux { received = rs } })
unfolding get_bytes socket_readbytes
get_bytes-failed n m rs h u r =
    let absent : leb (length h.aux.unread) 0 ≡ true =
      le→leb (length h.aux.unread) 0 (omega (arith, ap (λ t. length t) u)) in
    rw (absent, r, store_front [] m (omega arith))

-- The handle after a `recv` that failed, with the header of the packet before taken for a new one.
abbrev pub after_failed : List (Option Bytes) → Handle Socket → Handle Socket
after_failed rs h = record h {
  already_read_head = true;
  bytes_read = add64 h.bytes_read (negsuc 0);
  aux = record h.aux { received = rs };
}

-- When recv fails on a UDP socket whose datagrams were all handed out and the last header was a
-- valid one, pueo_read_X returns EOF and leaves the handle with that old header marked as read in
-- advance.
pub read_typed-failed :
    (k : Kind) (q : Bytes) (rs : List (Option Bytes)) (h : Handle Socket)
    → (u8_at h.last_read_header 4 == 0xf1) ≡ true
    → h.already_read_head ≡ false
    → h.aux.unread ≡ []
    → h.aux.received ≡ none ∷ rs
    → read_typed k reader_ops q h ≡ done (eof, q, after_failed rs h)
unfolding read_typed maybe_read_header
read_typed-failed k q rs h head clean u r =
    rw (get_bytes-failed 8 h.last_read_header rs h u r, head, clean)

-- When recv fails before any header was read on a UDP socket, pueo_read_X ends the program by its
-- assertion.
pub read_typed-failed_first :
    (k : Kind) (q : Bytes) (rs : List (Option Bytes)) (h : Handle Socket)
    → h.last_read_header ≡ zeros 8
    → h.already_read_head ≡ false
    → h.aux.unread ≡ []
    → h.aux.received ≡ none ∷ rs
    → read_typed k reader_ops q h ≡ fault assert_failed
unfolding read_typed maybe_read_header
read_typed-failed_first k q rs h head clean u r =
    rw (get_bytes-failed 8 h.last_read_header rs h u r, clean, head)

-- Reading no bytes from a UDP socket whose datagrams were all handed out receives the next
-- datagram, of which nothing is handed out, and marks a header as read in advance.
pub get_bytes-none :
    (m d : Bytes) (rs : List (Option Bytes)) (h : Handle Socket)
    → length d ≤ udp_buf_size
    → h.aux.unread ≡ []
    → h.aux.received ≡ some d ∷ rs
    → get_bytes reader_ops 0 0 m h ≡ done (pos 0, m, came d rs h)
unfolding get_bytes socket_readbytes
get_bytes-none m d rs h small u r =
    let absent : leb (length h.aux.unread) 0 ≡ true =
      le→leb (length h.aux.unread) 0 (omega (arith, ap (λ t. length t) u)) in
    rw (absent, r, take_all udp_buf_size d small, store_front [] m (omega arith))
