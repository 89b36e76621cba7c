-- ===== src/Packets/Object/Counted.antt =====
-- The objects with a counted array are carried by their payloads.
use libpueorawdata.Prelude.{
  ◌+◌, ◌-◌, ◌*◌, ◌≤◌, ◌≡◌, sym, ap, ◌∙◌, ◌++◌, length, take, drop, arith, subst,
}
use libpueorawdata.Prelude.Memory.{Bytes}
use libpueorawdata.Formats.Base.{max_file_download_length}
use libpueorawdata.Datatype.{
  sensors_disk, sensors_telem, cmd_echo, file_download, logs, nav_sat, member_at, latest_version,
}
use libpueorawdata.Packets.Counted.{
  num_disk, num_telem, disk_size, telem_size, cmd_len, download_len, logs_len, sats_len,
}
use libpueorawdata.Packets.Counted.Text.{cmd_echo_data_length, logs_buf_length}
use libpueorawdata.Packets.Counted.TextCodec.{
  cmd_echo_room, file_download_room, logs_room, cmd_echo-Reads, cmd_echo-Writes,
  file_download-Reads, file_download-Writes, logs-Reads, logs-Writes, nav_sat-Reads, nav_sat-Writes,
}
use libpueorawdata.Packets.Counted.SensorCodec.{
  sensors_disk-Reads, sensors_disk-Writes, sensors_telem-Reads, sensors_telem-Writes,
}
use libpueorawdata.Packets.Codec.{Writes}
use libpueorawdata.Packets.Object.{IsObject, counted_payload, counted_restored, array_at, rest_of}
use libpueorawdata.Packets.Object.Parts.{
  front-length, array-length, whole, cmd_len-front, download_len-front, logs_len-front,
  sats_len-front, num_disk-front, num_telem-front,
}
use libpueorawdata.Packets.Object.Carrier.{Carries}

pub cmd_echo-Carries :
    (p : Bytes)
    → IsObject cmd_echo p
    → Carries cmd_echo p (counted_payload cmd_echo p) (
        counted_restored cmd_echo
          (cmd_echo_data_length - length (take (cmd_len p) (drop (array_at cmd_echo) p)))
          p)
cmd_echo-Carries p o =
    let at = member_at cmd_echo "data" in
    let fits : member_at cmd_echo "data" + cmd_len p ≤ length p =
      omega (arith, o.object_size, o.array_fits, cmd_echo_room) in
    let front : length (take (member_at cmd_echo "data") p) ≡ member_at cmd_echo "data" =
      front-length at (cmd_len p) p fits in
    let size : length (take (cmd_len p) (drop (member_at cmd_echo "data") p)) ≡ cmd_len p =
      array-length at (cmd_len p) p fits in
    let fs = take at p in
    let bs = take (cmd_len p) (drop at p) in
    let counted = λ (x : Bytes). cmd_len-front p x o.object_size ∙ sym size in
    record {
      writes =
          subst (λ t. Writes cmd_echo t (fs ++ bs)) (whole at (cmd_len p) p fits)
            (cmd_echo-Writes fs bs front counted (omega (arith, size, o.array_fits))
              (drop (at + cmd_len p) p));
      reads =
          cmd_echo-Reads fs bs front counted (omega (arith, size, o.array_fits))
            (latest_version cmd_echo);
      writes_again =
          λ q _. cmd_echo-Writes fs bs front counted (omega (arith, size, o.array_fits)) _;
    }

pub file_download-Carries :
    (p : Bytes)
    → IsObject file_download p
    → Carries file_download p (counted_payload file_download p) (
        counted_restored file_download
          (max_file_download_length
            - length (take (download_len p) (drop (array_at file_download) p)))
          p)
file_download-Carries p o =
    let at = member_at file_download "bytes" in
    let fits : member_at file_download "bytes" + download_len p ≤ length p =
      omega (arith, o.object_size, o.array_fits, file_download_room) in
    let front : length (take (member_at file_download "bytes") p)
        ≡ member_at file_download "bytes" =
      front-length at (download_len p) p fits in
    let size : length (take (download_len p) (drop (member_at file_download "bytes") p))
        ≡ download_len p =
      array-length at (download_len p) p fits in
    let fs = take at p in
    let bs = take (download_len p) (drop at p) in
    let counted = λ (x : Bytes). download_len-front p x o.object_size ∙ sym size in
    record {
      writes =
          subst (λ t. Writes file_download t (fs ++ bs)) (whole at (download_len p) p fits)
            (file_download-Writes fs bs front counted (omega (arith, size, o.array_fits))
              (drop (at + download_len p) p));
      reads =
          file_download-Reads fs bs front counted (omega (arith, size, o.array_fits))
            (latest_version file_download);
      writes_again =
          λ q _. file_download-Writes fs bs front counted (omega (arith, size, o.array_fits)) _;
    }

pub logs-Carries :
    (p : Bytes)
    → IsObject logs p
    → Carries logs p (counted_payload logs p) (
        counted_restored logs
          (logs_buf_length - length (take (logs_len p) (drop (array_at logs) p)))
          p)
logs-Carries p o =
    let at = member_at logs "buf" in
    let fits : member_at logs "buf" + logs_len p ≤ length p =
      omega (arith, o.object_size, o.array_fits, logs_room) in
    let front : length (take (member_at logs "buf") p) ≡ member_at logs "buf" =
      front-length at (logs_len p) p fits in
    let size : length (take (logs_len p) (drop (member_at logs "buf") p)) ≡ logs_len p =
      array-length at (logs_len p) p fits in
    let fs = take at p in
    let bs = take (logs_len p) (drop at p) in
    let counted = λ (x : Bytes). logs_len-front p x o.object_size ∙ sym size in
    record {
      writes =
          subst (λ t. Writes logs t (fs ++ bs)) (whole at (logs_len p) p fits)
            (logs-Writes fs bs front counted (omega (arith, size, o.array_fits))
              (drop (at + logs_len p) p));
      reads =
          logs-Reads fs bs front counted (omega (arith, size, o.array_fits)) (latest_version logs);
      writes_again = λ q _. logs-Writes fs bs front counted (omega (arith, size, o.array_fits)) _;
    }

pub nav_sat-Carries :
    (p : Bytes)
    → IsObject nav_sat p
    → Carries nav_sat p (counted_payload nav_sat p) (counted_restored nav_sat (rest_of nav_sat p) p)
nav_sat-Carries p o =
    let at = member_at nav_sat "sats" in
    let fits : member_at nav_sat "sats" + sats_len p ≤ length p =
      omega (arith, o.object_size, o.array_fits) in
    let front : length (take (member_at nav_sat "sats") p) ≡ member_at nav_sat "sats" =
      front-length at (sats_len p) p fits in
    let size : length (take (sats_len p) (drop (member_at nav_sat "sats") p)) ≡ sats_len p =
      array-length at (sats_len p) p fits in
    let fs = take at p in
    let bs = take (sats_len p) (drop at p) in
    let counted = λ (x : Bytes). sats_len-front p x o.object_size ∙ sym size in
    record {
      writes =
          subst (λ t. Writes nav_sat t (fs ++ bs)) (whole at (sats_len p) p fits)
            (nav_sat-Writes fs bs front counted (omega (arith, size, o.array_fits))
              (drop (at + sats_len p) p));
      reads =
          nav_sat-Reads fs bs front counted (omega (arith, size, o.array_fits))
            (latest_version nav_sat);
      writes_again =
          λ q _. nav_sat-Writes fs bs front counted (omega (arith, size, o.array_fits)) _;
    }

pub sensors_disk-Carries :
    (p : Bytes)
    → IsObject sensors_disk p
    → Carries sensors_disk p
        (counted_payload sensors_disk p)
        (counted_restored sensors_disk (rest_of sensors_disk p) p)
unfolding latest_version
sensors_disk-Carries p o =
    let at = member_at sensors_disk "sensors" in
    let fits : member_at sensors_disk "sensors" + num_disk p * disk_size ≤ length p =
      omega (arith, o.object_size, o.array_fits) in
    let front : length (take (member_at sensors_disk "sensors") p)
        ≡ member_at sensors_disk "sensors" =
      front-length at (num_disk p * disk_size) p fits in
    let size : length (take (num_disk p * disk_size) (drop (member_at sensors_disk "sensors") p))
        ≡ num_disk p * disk_size =
      array-length at (num_disk p * disk_size) p fits in
    let fs = take at p in
    let bs = take (num_disk p * disk_size) (drop at p) in
    let counted =
      λ (x : Bytes). ap (λ t. t * disk_size) (num_disk-front p x o.object_size) ∙ sym size in
    record {
      writes =
          subst (λ t. Writes sensors_disk t (fs ++ bs)) (whole at (num_disk p * disk_size) p fits)
            (sensors_disk-Writes fs bs front counted (omega (arith, size, o.array_fits))
              (drop (at + num_disk p * disk_size) p));
      reads = sensors_disk-Reads fs bs front counted (omega (arith, size, o.array_fits));
      writes_again =
          λ q _. sensors_disk-Writes fs bs front counted (omega (arith, size, o.array_fits)) _;
    }

pub sensors_telem-Carries :
    (p : Bytes)
    → IsObject sensors_telem p
    → Carries sensors_telem p
        (counted_payload sensors_telem p)
        (counted_restored sensors_telem (rest_of sensors_telem p) p)
unfolding latest_version
sensors_telem-Carries p o =
    let at = member_at sensors_telem "sensors" in
    let fits : member_at sensors_telem "sensors" + num_telem p * telem_size ≤ length p =
      omega (arith, o.object_size, o.array_fits) in
    let front : length (take (member_at sensors_telem "sensors") p)
        ≡ member_at sensors_telem "sensors" =
      front-length at (num_telem p * telem_size) p fits in
    let size : length (take (num_telem p * telem_size) (drop (member_at sensors_telem "sensors") p))
        ≡ num_telem p * telem_size =
      array-length at (num_telem p * telem_size) p fits in
    let fs = take at p in
    let bs = take (num_telem p * telem_size) (drop at p) in
    let counted =
      λ (x : Bytes). ap (λ t. t * telem_size) (num_telem-front p x o.object_size) ∙ sym size in
    record {
      writes =
          subst (λ t. Writes sensors_telem t (fs ++ bs))
            (whole at (num_telem p * telem_size) p fits)
            (sensors_telem-Writes fs bs front counted (omega (arith, size, o.array_fits))
              (drop (at + num_telem p * telem_size) p));
      reads = sensors_telem-Reads fs bs front counted (omega (arith, size, o.array_fits));
      writes_again =
          λ q _. sensors_telem-Writes fs bs front counted (omega (arith, size, o.array_fits)) _;
    }
