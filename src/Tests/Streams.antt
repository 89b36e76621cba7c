-- ===== src/Tests/Streams.antt =====
-- The theorems on packets applied at a command echo and an attitude packet.
use libpueorawdata.Prelude.{
  ℕ, ◌+◌, ◌≡◌, ◌≢◌, refl, ap, true, List, [], ◌∷◌, ◌++◌, length, some, none, arith,
  length-replicate, false,
}
use libpueorawdata.Prelude.Int.{pos}
use libpueorawdata.Prelude.Run.{done, ◌>>=◌}
use libpueorawdata.Prelude.Memory.{Bytes, zeros}
use libpueorawdata.Datatype.{cmd_echo, nav_att, daq_hsk_summary, code, size_of, latest_version}
use libpueorawdata.Versions.{packet_size}
use libpueorawdata.Handle.{Handle}
use libpueorawdata.Handle.File.{File, file_ops}
use libpueorawdata.Packets.Object.{payload, restored}
use libpueorawdata.Packets.Simple.Laws.{zero_filled}
use libpueorawdata.Rawio.{read_typed, write_typed}
use libpueorawdata.Rawio.RoundTrip.{IsClean, after_read, packet_bytes}
use libpueorawdata.Rawio.RoundTrip.Whole.{
  object_bytes, write_then_read, write_then_read_lem, rewrite-object, read_typed-object,
}
use libpueorawdata.Rawio.RoundTrip.Old.{read_typed-old}
use libpueorawdata.Rawio.RoundTrip.Mismatch.{read_typed-next, ll_read-after_other}
use libpueorawdata.Rawio.Packet.{Packet, packet_as, ll_read, ll_read_realloc, eio, emsgsize}
use libpueorawdata.Rawio.Packet.Retry.{
  filled, reallocated, after_packet, sized, ll_read-small, ll_read_realloc-small, size_of-pos,
}
use libpueorawdata.Rawio.Packet.Cast.{packet_as-other, packet_as-reallocated}
use libpueorawdata.Rawio.Stream.{Item, no_packet}
use libpueorawdata.Rawio.Stream.RoundTrip.{
  stream_bytes, stream_packets, write_then_read_all, write_then_read_all_lem,
}
use libpueorawdata.Tests.Sample.{
  countdown, sample_cmd_echo, sample_cmd_echo-IsObject, sample_nav_att, sample_nav_att-IsObject,
}

length-zeros : (n : ℕ) → length (zeros n) ≡ n
length-zeros n = length-replicate n 0

-- A file that starts with the echo.
abbrev rest : Bytes
rest = 1 ∷ 2 ∷ 3 ∷ []

abbrev echo_file : Handle File
echo_file = record {
  packet_write_counter = 0;
  last_read_header = zeros 8;
  required_read_size = 0;
  already_read_head = false;
  bytes_written = 0;
  bytes_read = 0;
  aux = record { unread = object_bytes cmd_echo sample_cmd_echo ++ rest; written = []; room = 0 };
  log = [];
}

abbrev new_file : Handle File
new_file = record echo_file { aux = record { unread = []; written = []; room = 1000000 } }

echo_file-IsClean : IsClean echo_file
echo_file-IsClean = record { no_head = refl; head_room = refl }

abbrev target : Bytes
target = zeros (size_of cmd_echo)

abbrev echo_room : ℕ
echo_room = 8 + length (payload cmd_echo sample_cmd_echo)

write_then_read_lem_example :
    write_then_read cmd_echo echo_room sample_cmd_echo target
    ≡ done (
      pos (8 + length (payload cmd_echo sample_cmd_echo)),
      pos (length (payload cmd_echo sample_cmd_echo)),
      restored cmd_echo sample_cmd_echo target,
      [],
      [],
    )
write_then_read_lem_example =
    write_then_read_lem cmd_echo echo_room sample_cmd_echo target sample_cmd_echo-IsObject
      (length-zeros (size_of cmd_echo)) (omega arith)

abbrev echo_writer : Handle File
echo_writer = record echo_file { aux = record { unread = []; written = []; room = echo_room } }

rewrite-object_example :
    write_typed cmd_echo file_ops (restored cmd_echo sample_cmd_echo target) echo_writer
    ≡ write_typed cmd_echo file_ops sample_cmd_echo echo_writer
rewrite-object_example =
    rewrite-object cmd_echo sample_cmd_echo target echo_writer sample_cmd_echo-IsObject
      (length-zeros (size_of cmd_echo)) (omega arith)

read_typed-object_example :
    read_typed cmd_echo file_ops target echo_file
    ≡ done (
      pos (length (payload cmd_echo sample_cmd_echo)),
      restored cmd_echo sample_cmd_echo target,
      after_read cmd_echo
          (latest_version cmd_echo)
          (payload cmd_echo sample_cmd_echo)
          rest
          echo_file,
    )
read_typed-object_example =
    read_typed-object cmd_echo sample_cmd_echo target rest echo_file sample_cmd_echo-IsObject
      (length-zeros (size_of cmd_echo)) echo_file-IsClean refl

-- A summary packet of the first version.
abbrev old_payload : Bytes
old_payload = countdown 5032

old_size : packet_size daq_hsk_summary 0 ≡ pos (length old_payload)
unfolding packet_size
old_size = refl

abbrev old_file : Handle File
old_file = record echo_file {
  aux = record {
    unread = packet_bytes daq_hsk_summary 0 old_payload ++ rest;
    written = [];
    room = 0;
  };
}

abbrev summary_target : Bytes
summary_target = zeros (size_of daq_hsk_summary)

read_typed-old_example :
    read_typed daq_hsk_summary file_ops summary_target old_file
    ≡ done (
      pos (length old_payload),
      zero_filled daq_hsk_summary old_payload,
      after_read daq_hsk_summary 0 old_payload rest old_file,
    )
read_typed-old_example =
    read_typed-old daq_hsk_summary 0 old_payload summary_target rest old_file refl old_size
      (length-zeros (size_of daq_hsk_summary)) (record { no_head = refl; head_room = refl }) refl

different : cmd_echo ≢ nav_att
unfolding code
different e = omega (arith, ap code e)

read_typed-next_example :
    (read_typed nav_att file_ops sample_nav_att echo_file >>= λ (_, _, h).
    read_typed cmd_echo file_ops target h)
    ≡ read_typed cmd_echo file_ops target echo_file
read_typed-next_example =
    read_typed-next cmd_echo nav_att sample_cmd_echo target sample_nav_att rest echo_file
      sample_cmd_echo-IsObject different (length-zeros (size_of cmd_echo)) echo_file-IsClean refl

abbrev stuck_file : Handle File
stuck_file = record echo_file { already_read_head = true }

ll_read-after_other_example :
    ll_read file_ops no_packet stuck_file ≡ done (eio, no_packet, stuck_file)
ll_read-after_other_example = ll_read-after_other file_ops no_packet stuck_file refl refl

abbrev echo_sized : Handle File
echo_sized = sized cmd_echo sample_cmd_echo rest echo_file

ll_read-small_example :
    ll_read file_ops no_packet echo_file
    ≡ done (emsgsize, record no_packet { head = zeros 8 }, echo_sized)
ll_read-small_example =
    ll_read-small cmd_echo sample_cmd_echo rest echo_file sample_cmd_echo-IsObject echo_file-IsClean
      refl refl no_packet (size_of-pos cmd_echo)

ll_read_realloc-small_example :
    ll_read_realloc zeros file_ops (some no_packet) echo_file
    ≡ done (
      pos (length (payload cmd_echo sample_cmd_echo)),
      reallocated cmd_echo sample_cmd_echo zeros,
      after_packet cmd_echo sample_cmd_echo rest echo_file,
    )
ll_read_realloc-small_example =
    ll_read_realloc-small cmd_echo sample_cmd_echo rest echo_file sample_cmd_echo-IsObject
      echo_file-IsClean refl refl zeros no_packet length-zeros (size_of-pos cmd_echo)

abbrev large_packet : Packet
large_packet = record { head = zeros 8; payload_capacity = size_of cmd_echo + 1; payload = target }

packet_as-other_example : packet_as nav_att (filled cmd_echo sample_cmd_echo large_packet) ≡ none
packet_as-other_example = packet_as-other cmd_echo nav_att sample_cmd_echo large_packet different

packet_as-reallocated_example :
    packet_as cmd_echo (reallocated cmd_echo sample_cmd_echo zeros) ≡ none
packet_as-reallocated_example = packet_as-reallocated cmd_echo cmd_echo sample_cmd_echo zeros

abbrev echo_item : Item
echo_item = record { kind = cmd_echo; object = sample_cmd_echo }

abbrev nav_item : Item
nav_item = record { kind = nav_att; object = sample_nav_att }

abbrev items : List Item
items = echo_item ∷ nav_item ∷ echo_item ∷ []

write_then_read_all_lem_example :
    write_then_read_all zeros (length (stream_bytes items)) 4 items
    ≡ done (stream_packets zeros items, true)
write_then_read_all_lem_example =
    write_then_read_all_lem zeros items (length (stream_bytes items)) 4 length-zeros
      (sample_cmd_echo-IsObject, (sample_nav_att-IsObject, (sample_cmd_echo-IsObject, tt)))
      (omega arith) (omega arith)
