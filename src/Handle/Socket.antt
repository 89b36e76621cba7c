-- ===== src/Handle/Socket.antt =====
-- The UDP back end of src/rawio.c: a packet is gathered and sent as one datagram, and a datagram is
-- received and handed out in pieces.
pub mod Laws
use libpueorawdata.Prelude.{
  ℕ, ◌+◌, ◌-◌, Bool, true, false, ltb, leb, if◌then◌else◌, Option, none, some, List, [], ◌∷◌, ◌++◌,
  length, take, drop,
}
use libpueorawdata.Prelude.Int.{ℤ, pos, negsuc}
use libpueorawdata.Prelude.Memory.{Bytes}
use libpueorawdata.Handle.{Handle, Ops}

-- `struct udp_aux`: `pending` are the first `nin` bytes of `buf` when writing, and `unread` those from
-- `nout` to `nin` when reading. The other members stand for the socket: what `recv` will return, `none`
-- for a failure, the datagrams that were sent, and whether `write` fails.
pub record Socket : Type 0 where
  pub pending : Bytes
  pub unread : Bytes
  pub received : List (Option Bytes)
  pub sent : List Bytes
  pub broken : Bool

abbrev pub udp_max : ℕ
udp_max = 65507

-- `sizeof(aux->buf)`; what is longer in a datagram is lost.
abbrev pub udp_buf_size : ℕ
udp_buf_size = 65524

unfoldable pub socket_writebytes : Bytes → Handle Socket → ℤ × Handle Socket
socket_writebytes bs h =
    let aux = h.aux in
    let n : ℕ =
      if ltb udp_max (length aux.pending + length bs)
      then udp_max - length aux.pending
      else length bs in
    (pos n, record h { aux = record aux { pending = aux.pending ++ take n bs } })

unfoldable pub socket_done : Handle Socket → ℤ × Handle Socket
socket_done h =
    let aux = h.aux in
    if aux.broken then (negsuc 0, record h { aux = record aux { pending = [] } }) else (
      pos 0,
      record h { aux = record aux { pending = []; sent = aux.sent ++ aux.pending ∷ [] } },
    )

-- The bytes that are there, up to `n` of them.
unfoldable pub hand_out : ℕ → Handle Socket → ℤ × Bytes × Handle Socket
hand_out n h =
    let aux = h.aux in
    let bs = take n aux.unread in
    (pos (length bs), bs, record h { aux = record aux { unread = drop n aux.unread } })

-- `recv`. A socket with nothing more to come fails.
unfoldable pub receive : ℕ → List (Option Bytes) → Handle Socket → ℤ × Bytes × Handle Socket
unfolding hand_out
receive n [] h = (negsuc 0, [], h)
receive n (none ∷ rs) h = (negsuc 0, [], record h { aux = record h.aux { received = rs } })
receive n (some d ∷ rs) h = hand_out n (record h {
  already_read_head = true;
  aux = record h.aux { unread = take udp_buf_size d; received = rs };
})

unfoldable pub socket_readbytes : ℕ → Handle Socket → ℤ × Bytes × Handle Socket
unfolding receive hand_out
socket_readbytes n h =
    if leb (length h.aux.unread) 0 then receive n h.aux.received h else hand_out n h

-- The function pointers that `pueo_handle_init_udp` sets for a mode that holds `r`, or `w`; there is no
-- handle for a mode with both or neither.
unfoldable pub socket_ops : Bool → Bool → Option (Ops Socket)
unfolding socket_writebytes socket_readbytes socket_done
socket_ops true false =
    some
      (record { write_bytes = none; read_bytes = some socket_readbytes; done_write_packet = none })
socket_ops false true = some (record {
  write_bytes = some socket_writebytes;
  read_bytes = none;
  done_write_packet = some socket_done;
})
socket_ops _ _ = none

abbrev pub reader_ops : Ops Socket
reader_ops = record {
  write_bytes = none;
  read_bytes = some socket_readbytes;
  done_write_packet = none;
}

abbrev pub writer_ops : Ops Socket
writer_ops = record {
  write_bytes = some socket_writebytes;
  read_bytes = none;
  done_write_packet = some socket_done;
}
