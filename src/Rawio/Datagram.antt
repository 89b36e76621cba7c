-- ===== src/Rawio/Datagram.antt =====
-- Packets over UDP, for the types whose struct is written whole: one packet is one datagram.
pub mod Failures
use libpueorawdata.Prelude.{
  ℕ, ◌+◌, ◌-◌, ◌%◌, ◌^◌, ◌≤◌, ◌<◌, ◌≡◌, refl, sym, ap, ◌∙◌, true, false, Option, none, some, List,
  [], ◌∷◌, ◌++◌, length, drop, arith, append-nil, drop_all, take_all, length-append, ==_refl, ltb,
  le→ltb,
}
use libpueorawdata.Prelude.Int.{pos, add64}
use libpueorawdata.Prelude.Run.{done, ◌>>=◌}
use libpueorawdata.Prelude.Memory.{Bytes, zeros, clear}
use libpueorawdata.Prelude.Memory.Pieces.{load_inside, store_front, clear_piece}
use libpueorawdata.Datatype.{Kind, code, latest_version, size_of}
use libpueorawdata.Versions.{packet_size}
use libpueorawdata.Versions.Bounds.{packet_size-latest}
use libpueorawdata.Handle.{Handle, put_bytes, get_bytes}
use libpueorawdata.Handle.Header.{make_head, encode_head, decode_head}
use libpueorawdata.Handle.Socket.{Socket, reader_ops, writer_ops, socket_done}
use libpueorawdata.Handle.Socket.Laws.{
  gathered, remaining, came, put_bytes-socket, get_bytes-socket, get_bytes-datagram,
}
use libpueorawdata.Packets.Simple.{write_simple, read_simple}
use libpueorawdata.Packets.Simple.Laws.{
  is_simple, simple-datagram, simple-Writes, write_is_simple, read_is_simple,
}
use libpueorawdata.Packets.Dispatch.{packet_header_for, write_packet, read_packet}
use libpueorawdata.Packets.Codec.{head_of}
use libpueorawdata.Rawio.{
  maybe_read_header, compare_heads, read_body, read_typed, finish_packet, write_typed,
}
use libpueorawdata.Rawio.RoundTrip.{
  packet_bytes, decoded, head_of-type, head_of-version, head_of-num_bytes, compare_heads-same,
}
use libpueorawdata.Rawio.RoundTrip.Whole.{latest_version-lt}
use libpueorawdata.Rawio.Packet.Retry.{size_of-pos}

-- The datagram of an object.
abbrev pub datagram : Kind → Bytes → Bytes
datagram k p = packet_bytes k (latest_version k) p

-- The handle after the datagram was sent.
abbrev pub after_send : Kind → Bytes → Handle Socket → Handle Socket
after_send k p h = record h {
  bytes_written = add64 (add64 h.bytes_written (pos 8)) (pos (length p));
  packet_write_counter = (h.packet_write_counter + 1) % 2 ^ 32;
  aux = record h.aux { pending = []; sent = h.aux.sent ++ datagram k p ∷ [] };
}

write_simple-socket :
    (k : Kind) (p : Bytes) (h : Handle Socket)
    → is_simple k ≡ true
    → length p ≡ size_of k
    → length h.aux.pending + length p ≤ 65507
    → write_packet k writer_ops p h ≡ done (pos (length p), gathered p h)
unfolding write_simple
write_simple-socket k p h simple e fits =
    write_is_simple k writer_ops p h simple
    ∙ rw
        (
          write_simple,
          load_inside 0 (size_of k) p (omega arith),
          take_all (size_of k) p (omega arith),
        )
        (put_bytes-socket p h fits)

-- Over a UDP socket that works and on which nothing is pending, pueo_write_X of a type of
-- SIMPLE_PUEO_IO_IMPL sends exactly one datagram, which holds the header and the struct, leaves
-- nothing pending, counts the bytes and the packet, and returns the number of bytes.
pub write_typed-datagram :
    (k : Kind) (p : Bytes) (h : Handle Socket)
    → is_simple k ≡ true
    → length p ≡ size_of k
    → h.aux.pending ≡ []
    → h.aux.broken ≡ false
    → write_typed k writer_ops p h ≡ done (pos (8 + length p), after_send k p h)
unfolding write_typed finish_packet encode_head socket_done
write_typed-datagram k p h simple e idle sound =
    let head = encode_head (head_of k (latest_version k) p) in
    let fits : 8 + length p ≤ 65507 = omega (arith, simple-datagram k simple) in
    let none_pending : length h.aux.pending ≡ 0 = ap (λ t. length t) idle in
    rw (
      (simple-Writes k p simple e).header,
      put_bytes-socket head h (omega (arith, none_pending)),
      write_simple-socket k p
          (record (gathered head h) { bytes_written = add64 h.bytes_written (pos 8) }) simple e
          (omega (arith, none_pending, length-append h.aux.pending head)),
      idle,
      sound,
    )

-- The handle after a packet was received.
abbrev pub after_receive : Kind → Bytes → List (Option Bytes) → Handle Socket → Handle Socket
after_receive k p rs h = record h {
  last_read_header = encode_head (head_of k (latest_version k) p);
  already_read_head = false;
  bytes_read = add64 (add64 h.bytes_read (pos 8)) (pos (length p));
  aux = record h.aux { unread = []; received = rs };
}

read_simple-socket :
    (k : Kind) (p q : Bytes) (h : Handle Socket)
    → is_simple k ≡ true
    → length p ≡ size_of k
    → length q ≡ size_of k
    → h.aux.unread ≡ p
    → read_packet k reader_ops q (latest_version k) h ≡ done (pos (length p), p, remaining [] h)
unfolding read_simple
read_simple-socket k p q h simple e f u =
    let gone : size_of k - size_of k ≡ 0 = omega arith in
    let cleared : clear (size_of k) (size_of k - size_of k) (p ++ drop (length p) q) ≡ done p =
      ap (λ n. clear (size_of k) n (p ++ drop (length p) q)) gone
      ∙ (clear_piece (size_of k) 0 p (drop (length p) q) e (omega arith)
          ∙ ap (λ t. done t)
              (ap (λ t. p ++ t) (drop_all (length p) q (omega arith)) ∙ append-nil p)) in
    read_is_simple k reader_ops q (latest_version k) h simple
    ∙ rw (packet_size-latest k, read_simple)
        (rw (
          le→ltb (size_of k) (size_of k) (omega arith),
          get_bytes-socket (size_of k) 0 q p [] h (size_of-pos k) e (u ∙ sym (append-nil p)),
          store_front p q (omega arith),
          cleared,
          e,
        ))

-- The handle after the header was read.
abbrev after_first : Kind → Bytes → List (Option Bytes) → Handle Socket → Handle Socket
after_first k p rs h = record h {
  last_read_header = encode_head (head_of k (latest_version k) p);
  already_read_head = true;
  bytes_read = add64 h.bytes_read (pos 8);
  aux = record h.aux { unread = p; received = rs };
}

maybe_read_header-datagram :
    (k : Kind) (p : Bytes) (rs : List (Option Bytes)) (h : Handle Socket)
    → 8 + length p ≤ 65507
    → length h.last_read_header ≡ 8
    → h.already_read_head ≡ false
    → h.aux.unread ≡ []
    → h.aux.received ≡ some (datagram k p) ∷ rs
    → maybe_read_header reader_ops h ≡ done (pos 8, after_first k p rs h)
unfolding maybe_read_header encode_head make_head
maybe_read_header-datagram k p rs h fits room clean u r =
    let head = encode_head (head_of k (latest_version k) p) in
    rw (
      get_bytes-datagram 8 0 h.last_read_header head p rs h refl
          (omega (arith, length-append head p)) u r,
      store_front head h.last_read_header (omega (arith, room)),
      drop_all 8 h.last_read_header (omega (arith, room)),
      clean,
    )

read_body-datagram :
    (k : Kind) (p q : Bytes) (rs : List (Option Bytes)) (h : Handle Socket)
    → is_simple k ≡ true
    → length p ≡ size_of k
    → length q ≡ size_of k
    → read_body k reader_ops q (after_first k p rs h)
      ≡ done (pos (length p), p, after_receive k p rs h)
unfolding read_body compare_heads
read_body-datagram k p q rs h simple e f =
    let ver = latest_version k in
    let whole = decoded k ver p in
    let small : length p < 2 ^ 20 = omega (arith, simple-datagram k simple) in
    let version : (decode_head (encode_head (head_of k ver p))).version ≡ ver =
      ap (λ t. t.version) whole ∙ head_of-version k ver p (latest_version-lt k) in
    rw (
      version,
      read_simple-socket k p q (record (after_first k p rs h) { already_read_head = false }) simple
          e f refl,
      version,
      (simple-Writes k p simple e).header,
      whole,
      compare_heads-same (length p) (head_of k ver p) (after_receive k p rs h)
          (head_of-num_bytes k ver p small),
    )

-- Over a UDP socket whose datagrams were all handed out, when the next datagram is the packet of
-- an object of a type of SIMPLE_PUEO_IO_IMPL, pueo_read_X of that type receives it, returns the
-- struct's size and the object, leaves nothing of the datagram, keeps no header read in advance,
-- and prints nothing.
pub read_typed-datagram :
    (k : Kind) (p q : Bytes) (rs : List (Option Bytes)) (h : Handle Socket)
    → is_simple k ≡ true
    → length p ≡ size_of k
    → length q ≡ size_of k
    → length h.last_read_header ≡ 8
    → h.already_read_head ≡ false
    → h.aux.unread ≡ []
    → h.aux.received ≡ some (datagram k p) ∷ rs
    → read_typed k reader_ops q h ≡ done (pos (length p), p, after_receive k p rs h)
unfolding read_typed
read_typed-datagram k p q rs h simple e f room clean u r = rw (
  maybe_read_header-datagram k p rs h (omega (arith, simple-datagram k simple)) room clean u r,
  decoded k (latest_version k) p,
  head_of-type k (latest_version k) p,
  read_body-datagram k p q rs h simple e f,
)
