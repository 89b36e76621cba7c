-- ===== src/Formats/Sensor.antt =====
-- The sensor packets of inc/pueo/rawdata.h, and the sensor readings inside them.
use libpueorawdata.Layout.{Ty, array, bits, end, field, int, struct, union}
use libpueorawdata.Formats.Base.{max_sensors_per_packet_disk, max_sensors_per_packet_telem}

unfoldable pub sensor_telem_t : Ty
sensor_telem_t = struct (
    bits "sensor_id" 2 10 (
      bits "relsecs" 2 6 (
        field "val" (union (field "fval" (int 2) (field "ival" (int 2) (field "uval" (int 2) end))))
          end)))

unfoldable pub sensor_disk_t : Ty
sensor_disk_t = struct (
    field "sensor_id" (int 2) (
      field "time_ms" (int 2) (
        field "time_secs" (int 4) (
          field "val"
            (union (field "fval" (int 4) (field "ival" (int 4) (field "uval" (int 4) end)))) end))))

unfoldable pub sensors_disk_t : Ty
unfolding sensor_disk_t
sensors_disk_t = struct (
    field "num_packets" (int 2) (
      field "sensor_id_magic" (int 2)
        (field "sensors" (array max_sensors_per_packet_disk sensor_disk_t) end)))

unfoldable pub sensors_telem_t : Ty
unfolding sensor_telem_t
sensors_telem_t = struct (
    field "timeref_secs" (int 4) (
      field "sensor_id_magic" (int 2) (
        field "num_packets" (int 2)
          (field "sensors" (array max_sensors_per_packet_telem sensor_telem_t) end))))
