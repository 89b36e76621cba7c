-- ===== src/Formats/Base.antt =====
-- Constants and shared structs of inc/pueo/rawdata.h.
use libpueorawdata.Layout.{Ty, bits, end, struct}
use libpueorawdata.Prelude.{ℕ}

abbrev pub num_l2 : ℕ
num_l2 = 12

abbrev pub ss_num_sensors : ℕ
ss_num_sensors = 8

abbrev pub max_sensors_per_packet_disk : ℕ
max_sensors_per_packet_disk = 256

abbrev pub max_sensors_per_packet_telem : ℕ
max_sensors_per_packet_telem = 256

abbrev pub max_file_download_length : ℕ
max_file_download_length = 65000

unfoldable pub time_t : Ty
time_t = struct (bits "utc_secs" 8 34 (bits "utc_nsecs" 4 30 end))
