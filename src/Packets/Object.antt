-- ===== src/Packets/Object.antt =====
-- What the functions of src/rawio_packets.c make of a whole object: the bytes of it that are its
-- payload, and what of them is in the object that they are read into.
pub mod Parts
pub mod Carrier
pub mod Counted
pub mod Waves
pub mod Carries
use libpueorawdata.Prelude.{ℕ, ◌+◌, ◌-◌, ◌*◌, ◌≤◌, ◌≡◌, ◌++◌, length, take, drop}
use libpueorawdata.Prelude.Memory.{Bytes, zeros}
use libpueorawdata.Geometry.{nchan}
use libpueorawdata.Formats.Base.{max_file_download_length}
use libpueorawdata.Datatype.{
  Kind, full_waveforms, single_waveform, sensors_disk, sensors_telem, cmd_echo, file_download, logs,
  nav_sat, size_of, member_at,
}
use libpueorawdata.Packets.Counted.{
  num_disk, num_telem, disk_size, telem_size, cmd_len, download_len, logs_len, sats_len,
}
use libpueorawdata.Packets.Counted.Text.{cmd_echo_data_length, logs_buf_length}
use libpueorawdata.Packets.Waveform.Blocks.{wave, waves}
use libpueorawdata.Packets.Waveform.Channels.{after_blocks}
use libpueorawdata.Packets.Waveform.Split.{block_of, blocks_of}
use libpueorawdata.Packets.Waveform.Single.{single_at}
use libpueorawdata.Packets.Waveform.Full.{full_at}

-- Where the counted array of a struct begins.
abbrev pub array_at : Kind → ℕ
array_at cmd_echo = member_at cmd_echo "data"
array_at file_download = member_at file_download "bytes"
array_at logs = member_at logs "buf"
array_at nav_sat = member_at nav_sat "sats"
array_at k = member_at k "sensors"

-- The bytes of the array that the object counts.
abbrev pub array_bytes : Kind → Bytes → ℕ
array_bytes cmd_echo p = cmd_len p
array_bytes file_download p = download_len p
array_bytes logs p = logs_len p
array_bytes nav_sat p = sats_len p
array_bytes sensors_disk p = num_disk p * disk_size
array_bytes k p = num_telem p * telem_size

-- The front of the struct, and the first bytes of the array.
abbrev pub counted_payload : Kind → Bytes → Bytes
counted_payload k p = take (array_at k) p ++ take (array_bytes k p) (drop (array_at k) p)

unfoldable pub payload : Kind → Bytes → Bytes
payload full_waveforms p = take full_at p ++ waves (blocks_of nchan (drop full_at p))
payload single_waveform p = take single_at p ++ wave (block_of (drop single_at p))
payload sensors_disk p = counted_payload sensors_disk p
payload sensors_telem p = counted_payload sensors_telem p
payload cmd_echo p = counted_payload cmd_echo p
payload file_download p = counted_payload file_download p
payload logs p = counted_payload logs p
payload nav_sat p = counted_payload nav_sat p
payload k p = p

-- The object's counted array has its bytes.
abbrev pub Fits : Kind → Bytes → Type 0
Fits sensors_disk p =
    member_at sensors_disk "sensors" + num_disk p * disk_size ≤ size_of sensors_disk
Fits sensors_telem p =
    member_at sensors_telem "sensors" + num_telem p * telem_size ≤ size_of sensors_telem
Fits cmd_echo p = cmd_len p ≤ cmd_echo_data_length
Fits file_download p = download_len p ≤ max_file_download_length
Fits logs p = logs_len p ≤ logs_buf_length
Fits nav_sat p = member_at nav_sat "sats" + sats_len p ≤ size_of nav_sat
Fits k p = Unit

-- An object of the type, which can be written.
pub record IsObject (k : Kind) (p : Bytes) : Type 0 where
  pub object_size : length p ≡ size_of k
  pub array_fits : Fits k p

-- The payload of `p` with `n` zeros behind it, over the object `q`.
abbrev pub counted_restored : Kind → ℕ → Bytes → Bytes → Bytes
counted_restored k n p q =
    counted_payload k p
    ++ (zeros n
        ++ drop n
            (drop (length (take (array_bytes k p) (drop (array_at k) p))) (drop (array_at k) q)))

-- The rest of the struct behind the payload.
abbrev rest_of : Kind → Bytes → ℕ
rest_of k p = size_of k - length (counted_payload k p)

-- What the payload of `p` makes of the object `q` that it is read into. The text arrays are cleared
-- up to their own end, the other counted structs up to theirs; what stands behind a waveform's
-- samples stays.
unfoldable pub restored : Kind → Bytes → Bytes → Bytes
restored full_waveforms p q =
    take full_at p ++ after_blocks (blocks_of nchan (drop full_at p)) (drop full_at q)
restored single_waveform p q =
    take single_at p
    ++ (wave (block_of (drop single_at p))
        ++ drop (length (wave (block_of (drop single_at p)))) (drop single_at q))
restored sensors_disk p q = counted_restored sensors_disk (rest_of sensors_disk p) p q
restored sensors_telem p q = counted_restored sensors_telem (rest_of sensors_telem p) p q
restored cmd_echo p q =
    counted_restored cmd_echo
      (cmd_echo_data_length - length (take (cmd_len p) (drop (array_at cmd_echo) p))) p q
restored file_download p q =
    counted_restored file_download
      (max_file_download_length - length (take (download_len p) (drop (array_at file_download) p)))
      p q
restored logs p q =
    counted_restored logs (logs_buf_length - length (take (logs_len p) (drop (array_at logs) p))) p
      q
restored nav_sat p q = counted_restored nav_sat (rest_of nav_sat p) p q
restored k p q = p
