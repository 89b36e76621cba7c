-- ===== src/Packets/Counted/Sensors.antt =====
-- The sensor packets: `num_packets` readings of the array are written. Version 0 has all of them.
use libpueorawdata.Prelude.{ℕ, ◌+◌, ◌*◌, ltb, ◌==◌, if◌then◌else◌}
use libpueorawdata.Prelude.Int.{ℤ}
use libpueorawdata.Prelude.Run.{Run, done, ◌>>=◌}
use libpueorawdata.Prelude.Memory.{Bytes, load}
use libpueorawdata.Formats.Base.{max_sensors_per_packet_disk, max_sensors_per_packet_telem}
use libpueorawdata.Crc.{crc16}
use libpueorawdata.Datatype.{sensors_disk, sensors_telem, size_of, member_at}
use libpueorawdata.Handle.{Handle, Ops, put_bytes}
use libpueorawdata.Handle.Header.{Head, make_head}
use libpueorawdata.Packets.Counted.{
  num_disk, num_telem, disk_size, telem_size, read_two, clear_from,
}

unfoldable pub disk_bytes : Bytes → ℕ → ℕ
disk_bytes t ver =
    if ver == 0
    then size_of sensors_disk
    else member_at sensors_disk "sensors" + num_disk t * disk_size

unfoldable pub header_for_sensors_disk : Bytes → ℕ → Run Head
unfolding disk_bytes
header_for_sensors_disk t ver = do
  bs ← load 0 (disk_bytes t ver) t
  done (make_head sensors_disk ver (crc16 bs) (disk_bytes t ver))

unfoldable pub read_sensors_disk :
    {S : Type 0} → Ops S → Bytes → ℕ → Handle S → Run (ℤ × Bytes × Handle S)
read_sensors_disk ops t ver h = do
  (nrd, t, h) ←
      read_two ops (member_at sensors_disk "sensors")
        (λ t. (if ver == 0 then max_sensors_per_packet_disk else num_disk t) * disk_size) t h
  t ←
      if ver == 0
      then done t
      else if ltb (num_disk t) max_sensors_per_packet_disk
      then clear_from nrd (size_of sensors_disk) t
      else done t
  done (nrd, t, h)

unfoldable pub write_sensors_disk : {S : Type 0} → Ops S → Bytes → Handle S → Run (ℤ × Handle S)
write_sensors_disk ops t h =
    load 0 (member_at sensors_disk "sensors" + num_disk t * disk_size) t >>= λ bs.
    put_bytes ops bs h

unfoldable pub telem_bytes : Bytes → ℕ → ℕ
telem_bytes t ver =
    if ver == 0
    then size_of sensors_telem
    else member_at sensors_telem "sensors" + num_telem t * telem_size

unfoldable pub header_for_sensors_telem : Bytes → ℕ → Run Head
unfolding telem_bytes
header_for_sensors_telem t ver = do
  bs ← load 0 (telem_bytes t ver) t
  done (make_head sensors_telem ver (crc16 bs) (telem_bytes t ver))

unfoldable pub read_sensors_telem :
    {S : Type 0} → Ops S → Bytes → ℕ → Handle S → Run (ℤ × Bytes × Handle S)
read_sensors_telem ops t ver h = do
  (nrd, t, h) ←
      read_two ops (member_at sensors_telem "sensors")
        (λ t. (if ver == 0 then max_sensors_per_packet_telem else num_telem t) * telem_size) t h
  t ← clear_from nrd (size_of sensors_telem) t
  done (nrd, t, h)

unfoldable pub write_sensors_telem : {S : Type 0} → Ops S → Bytes → Handle S → Run (ℤ × Handle S)
write_sensors_telem ops t h =
    load 0 (member_at sensors_telem "sensors" + num_telem t * telem_size) t >>= λ bs.
    put_bytes ops bs h
