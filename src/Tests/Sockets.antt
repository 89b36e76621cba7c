-- ===== src/Tests/Sockets.antt =====
-- The theorems on sockets applied at an attitude packet.
use libpueorawdata.Prelude.{
  ℕ, ◌+◌, ◌≤◌, ◌≡◌, ◌≢◌, refl, ap, false, Option, none, some, List, [], ◌∷◌, length, arith,
  length-replicate,
}
use libpueorawdata.Prelude.Int.{pos}
use libpueorawdata.Prelude.Run.{done}
use libpueorawdata.Prelude.Memory.{Bytes, zeros}
use libpueorawdata.Layout.{bit_offset}
use libpueorawdata.Datatype.{nav_att, daq_hsk, slow, code, latest_version, size_of, struct_of}
use libpueorawdata.Versions.Members.{members, version_struct, version_members}
use libpueorawdata.Handle.{Handle}
use libpueorawdata.Handle.Socket.{Socket, udp_max, socket_writebytes, reader_ops, writer_ops}
use libpueorawdata.Handle.Socket.Laws.{socket_writebytes-bound}
use libpueorawdata.Rawio.{eof, read_typed, write_typed}
use libpueorawdata.Rawio.Datagram.{
  datagram, after_send, after_receive, write_typed-datagram, read_typed-datagram,
}
use libpueorawdata.Rawio.Datagram.Failures.{after_failed, read_typed-failed}
use libpueorawdata.Tests.Sample.{sample_nav_att, sample_nav_att-IsObject}

abbrev socket_of : List (Option Bytes) → Handle Socket
socket_of rs = record {
  packet_write_counter = 0;
  last_read_header = zeros 8;
  required_read_size = 0;
  already_read_head = false;
  bytes_written = 0;
  bytes_read = 0;
  aux = record { pending = []; unread = []; received = rs; sent = []; broken = false };
  log = [];
}

write_typed-datagram_example :
    write_typed nav_att writer_ops sample_nav_att (socket_of [])
    ≡ done (pos (8 + length sample_nav_att), after_send nav_att sample_nav_att (socket_of []))
write_typed-datagram_example =
    write_typed-datagram nav_att sample_nav_att (socket_of []) refl
      sample_nav_att-IsObject.object_size refl refl

abbrev inbox : List (Option Bytes)
inbox = some (datagram nav_att sample_nav_att) ∷ none ∷ []

read_typed-datagram_example :
    read_typed nav_att reader_ops (zeros (size_of nav_att)) (socket_of inbox)
    ≡ done (
      pos (length sample_nav_att),
      sample_nav_att,
      after_receive nav_att sample_nav_att (none ∷ []) (socket_of inbox),
    )
read_typed-datagram_example =
    read_typed-datagram nav_att sample_nav_att (zeros (size_of nav_att)) (none ∷ [])
      (socket_of inbox) refl sample_nav_att-IsObject.object_size
      (length-replicate (size_of nav_att) 0) refl refl refl refl

abbrev full_socket : Handle Socket
full_socket = record (socket_of []) {
  aux = record { pending = zeros 65506; unread = []; received = []; sent = []; broken = false };
}

socket_writebytes-bound_example :
    (n : ℕ) × ((socket_writebytes (1 ∷ 2 ∷ 3 ∷ []) full_socket).0 ≡ pos n)
    × (length (socket_writebytes (1 ∷ 2 ∷ 3 ∷ []) full_socket).1.aux.pending
        ≡ length full_socket.aux.pending + n)
    × (length (socket_writebytes (1 ∷ 2 ∷ 3 ∷ []) full_socket).1.aux.pending ≤ udp_max)
socket_writebytes-bound_example =
    socket_writebytes-bound (1 ∷ 2 ∷ 3 ∷ []) full_socket
      (omega (arith, length-replicate {A = ℕ} 65506 0))

abbrev failing : Handle Socket
failing = record (socket_of (none ∷ [])) {
  last_read_header = 0x71 ∷ 0xa7 ∷ 0 ∷ 0 ∷ 0xf1 ∷ 0 ∷ 4 ∷ 0 ∷ [];
}

read_typed-failed_example :
    read_typed nav_att reader_ops sample_nav_att failing
    ≡ done (eof, sample_nav_att, after_failed [] failing)
read_typed-failed_example = read_typed-failed nav_att sample_nav_att [] failing refl refl refl refl

not_slow : daq_hsk ≢ slow
unfolding code
not_slow e = omega (arith, ap code e)

first_version : 0 ≤ latest_version daq_hsk
first_version = omega arith

-- The scalers of the first housekeeping version.
old_scalers : bit_offset "Hscalers" (members (version_struct daq_hsk 0)) 0 ≡ some 100416
unfolding bit_offset version_struct
old_scalers = refl

version_members_example : bit_offset "Hscalers" (members (struct_of daq_hsk)) 0 ≡ some 100416
version_members_example =
    version_members daq_hsk 0 "Hscalers" 100416 refl not_slow first_version old_scalers
