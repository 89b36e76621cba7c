-- ===== src/Packets/Counted.antt =====
-- The packet types of src/rawio_packets.c that end in an array, of which a member says how much
-- is written.
pub mod Sensors
pub mod Text
pub mod Pieces
pub mod TextCodec
pub mod SensorCodec
use libpueorawdata.Prelude.{true, false, ltb, ℕ, ◌+◌, ◌-◌, ◌*◌}
use libpueorawdata.Prelude.Int.{ℤ, pos, negsuc, ◌+ℤ◌}
use libpueorawdata.Prelude.Run.{Run, done, fault, out_of_bounds, ◌>>=◌}
use libpueorawdata.Prelude.Memory.{Bytes, u8_at, u16_at, clear}
use libpueorawdata.Layout.{sizeof}
use libpueorawdata.Formats.Nav.{sat_t}
use libpueorawdata.Formats.Sensor.{sensor_disk_t, sensor_telem_t}
use libpueorawdata.Datatype.{
  sensors_disk, sensors_telem, cmd_echo, file_download, logs, nav_sat, member_at,
}
use libpueorawdata.Handle.{Handle, Ops, get_bytes}

-- The members that count, and the bytes of the array's elements.
unfoldable pub num_disk : Bytes → ℕ
num_disk p = u16_at p (member_at sensors_disk "num_packets")

unfoldable pub num_telem : Bytes → ℕ
num_telem p = u16_at p (member_at sensors_telem "num_packets")

unfoldable pub disk_size : ℕ
disk_size = sizeof sensor_disk_t

unfoldable pub telem_size : ℕ
telem_size = sizeof sensor_telem_t

-- `len_m1` is the lowest byte of its word.
unfoldable pub cmd_len : Bytes → ℕ
cmd_len p = u8_at p (member_at cmd_echo "len_m1") + 1

unfoldable pub download_len : Bytes → ℕ
download_len p = u16_at p (member_at file_download "len")

unfoldable pub logs_len : Bytes → ℕ
logs_len p =
    u8_at p (member_at logs "daemon_len")
    + u8_at p (member_at logs "grep_len")
    + u16_at p (member_at logs "msg_len")

-- `sizeof(*n->sats)`, which is `sizeof(n->sats) / 255` too.
unfoldable pub sat_size : ℕ
sat_size = sizeof sat_t

unfoldable pub sats_len : Bytes → ℕ
sats_len p = u8_at p (member_at nav_sat "nsats_visible") * sat_size

-- The front of the struct, then as many bytes of the array as the front, once read, asks for.
unfoldable pub read_two :
    {S : Type 0} → Ops S → ℕ → (Bytes → ℕ) → Bytes → Handle S → Run (ℤ × Bytes × Handle S)
read_two ops front count p h = do
  (nrd, p, h) ← get_bytes ops front 0 p h
  (more, p, h) ← get_bytes ops (count p) front p h
  done (nrd +ℤ more, p, h)

-- `memset((uint8_t*) t + nrd, 0, sizeof(*t) - nrd)`.
unfoldable pub clear_from : ℤ → ℕ → Bytes → Run Bytes
clear_from (pos n) size p = clear n (size - n) p
clear_from (negsuc n) size p = fault out_of_bounds

-- `memset(array + len, 0, sizeof(array) - len)`: a `len` above the array's size makes the size of the
-- `memset` wrap around.
unfoldable pub clear_array : ℕ → ℕ → ℕ → Bytes → Run Bytes
clear_array at size len p = elim (ltb size len) [
  | true ↦ fault out_of_bounds
  | false ↦ clear (at + len) (size - len) p
]
