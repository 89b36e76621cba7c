-- ===== src/Handle/Socket/Laws.antt =====
-- Bytes through a socket: gathered up to the largest datagram, and handed out of one that came.
use libpueorawdata.Prelude.{
  ℕ, ◌+◌, ◌-◌, ◌≤◌, ◌<◌, ◌≡◌, ap, Option, some, List, [], ◌∷◌, ◌++◌, length, take, arith, le→ltb,
  leb, ltb, le→leb, lt→leb, length-append, length-take, take_all, take-append_of_length,
  drop-append_of_length, true, false, ltb→lt, ltb-false→le, refl, Bool-cases, inl, inr,
}
use libpueorawdata.Prelude.Int.{pos}
use libpueorawdata.Prelude.Run.{done, ◌>>=◌}
use libpueorawdata.Prelude.Memory.{Bytes, store}
use libpueorawdata.Handle.{Handle, put_bytes, get_bytes}
use libpueorawdata.Handle.Socket.{
  Socket, udp_max, udp_buf_size, socket_writebytes, socket_readbytes, reader_ops, writer_ops,
}

-- A handle after `bs` was gathered, and after a datagram came of which `rest` is left.
abbrev pub gathered : Bytes → Handle Socket → Handle Socket
gathered bs h = record h { aux = record h.aux { pending = h.aux.pending ++ bs } }

abbrev pub remaining : Bytes → Handle Socket → Handle Socket
remaining rest h = record h { aux = record h.aux { unread = rest } }

abbrev pub came : Bytes → List (Option Bytes) → Handle Socket → Handle Socket
came rest rs h = record h {
  already_read_head = true;
  aux = record h.aux { unread = rest; received = rs };
}

pub put_bytes-socket :
    (bs : Bytes) (h : Handle Socket)
    → length h.aux.pending + length bs ≤ udp_max
    → put_bytes writer_ops bs h ≡ done (pos (length bs), gathered bs h)
unfolding put_bytes socket_writebytes
put_bytes-socket bs h fits =
    rw (
      le→ltb udp_max (length h.aux.pending + length bs) fits,
      take_all (length bs) bs (omega arith),
    )

length-gathered : (xs bs : Bytes) (n : ℕ) → n ≤ length bs → length (xs ++ take n bs) ≡ length xs + n
length-gathered xs bs n h = omega (arith, length-append xs (take n bs), length-take n bs)

-- Writing any bytes to a UDP socket returns the number of bytes that were gathered, and never
-- makes the pending datagram longer than UDP_MAX.
pub socket_writebytes-bound :
    (bs : Bytes) (h : Handle Socket)
    → length h.aux.pending ≤ udp_max
    → (n : ℕ) × ((socket_writebytes bs h).0 ≡ pos n)
      × (length (socket_writebytes bs h).1.aux.pending ≡ length h.aux.pending + n)
      × (length (socket_writebytes bs h).1.aux.pending ≤ udp_max)
unfolding socket_writebytes
socket_writebytes-bound bs h small =
    elim (Bool-cases (ltb udp_max (length h.aux.pending + length bs))) [
      | inl over ↦
          let room = udp_max - length h.aux.pending in
          let above = ltb→lt udp_max (length h.aux.pending + length bs) over in
          let total = length-gathered h.aux.pending bs room (omega arith) in
          rw over (room, refl, total, omega (arith, total))
      | inr within ↦
          let below = ltb-false→le udp_max (length h.aux.pending + length bs) within in
          let total = length-gathered h.aux.pending bs (length bs) (omega arith) in
          rw within (length bs, refl, total, omega (arith, total))
    ]

pub get_bytes-socket :
    (n off : ℕ) (m bs rest : Bytes) (h : Handle Socket)
    → 0 < n
    → length bs ≡ n
    → h.aux.unread ≡ bs ++ rest
    → get_bytes reader_ops n off m h ≡ (store off bs m >>= λ m'. done (pos n, m', remaining rest h))
unfolding get_bytes socket_readbytes
get_bytes-socket n off m bs rest h some_bytes e u =
    let present : leb (length h.aux.unread) 0 ≡ false =
      lt→leb (length h.aux.unread) 0 (omega (arith, ap (λ t. length t) u, length-append bs rest)) in
    rw (present, u, take-append_of_length n bs rest e, drop-append_of_length n bs rest e, e)

pub get_bytes-datagram :
    (n off : ℕ) (m bs rest : Bytes) (rs : List (Option Bytes)) (h : Handle Socket)
    → length bs ≡ n
    → length (bs ++ rest) ≤ udp_buf_size
    → h.aux.unread ≡ []
    → h.aux.received ≡ some (bs ++ rest) ∷ rs
    → get_bytes reader_ops n off m h ≡ (store off bs m >>= λ m'. done (pos n, m', came rest rs h))
unfolding get_bytes socket_readbytes
get_bytes-datagram n off m bs rest rs h e small u r =
    let absent : leb (length h.aux.unread) 0 ≡ true =
      le→leb (length h.aux.unread) 0 (omega (arith, ap (λ t. length t) u)) in
    rw (
      absent,
      r,
      take_all udp_buf_size (bs ++ rest) small,
      take-append_of_length n bs rest e,
      drop-append_of_length n bs rest e,
      e,
    )
