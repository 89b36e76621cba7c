-- ===== src/Dump/Readings.antt =====
-- pueo_dump_sensors_telem and pueo_dump_sensors_disk of src/rawio_dump.c.
use libpueorawdata.Prelude.{ℕ, ltb, ◌==◌, if◌then◌else◌, List, [], ◌∷◌, ◌++◌, String}
use libpueorawdata.Prelude.Int.{pos}
use libpueorawdata.Prelude.Run.{Run, done, out_of_bounds, check, ◌>>=◌, ◌>>◌}
use libpueorawdata.Formats.Base.{max_sensors_per_packet_telem, max_sensors_per_packet_disk}
use libpueorawdata.Layout.Access.{member, at, to_signed}
use libpueorawdata.Sensors.{sensor_id_get_compat}
use libpueorawdata.Sensors.Row.{float, unsigned as unsigned_tag}
use libpueorawdata.Db.Statement.{half, single}
use libpueorawdata.Db.Rows.Members.{Members}
use libpueorawdata.Db.Rows.Telemetry.{reading, or_null, or_zero}
use libpueorawdata.Dump.Print.{
  Printed, decimal, real, text, character, Print, start, end, start_array, end_array, key,
  unsigned_keys, for_each_run,
}

-- The decoded_keys columns of the reading i, and its tag.
unfoldable pub decoded_keys : Members → ℕ → Run (List Print × ℕ)
unfolding sensor_id_get_compat
decoded_keys t i = do
  let id = t (reading i "sensor_id")
  let magic = t (member "sensor_id_magic" ∷ [])
  subsystem ← sensor_id_get_compat (λ s. s.subsystem) id magic
  name ← sensor_id_get_compat (λ s. s.name) id magic
  tag ← sensor_id_get_compat (λ s. s.type_tag) id magic
  kind ← sensor_id_get_compat (λ s. s.kind) id magic
  done (
      (
        key "decoded_sensor_subsystem" (text (or_null subsystem))
            ∷ key "decoded_sensor_name" (text (or_null name))
            ∷ key "decoded_sensor_type" (character (or_zero tag))
            ∷ key "decoded_sensor_kind" (character (or_zero kind))
            ∷ [],
        or_zero tag,
      ))

abbrev val_bits : Members → ℕ → String → ℕ
val_bits t i name = t (member "sensors" ∷ at i ∷ member "val" ∷ member name ∷ [])

-- The switch on the tag: a `float16`, %hu, or %hd.
unfoldable pub telem_value : Members → ℕ → ℕ → Printed
telem_value t i tag =
    if tag == float
    then real (half (val_bits t i "fval"))
    else if tag == unsigned_tag
    then decimal (pos (val_bits t i "uval"))
    else decimal (to_signed 16 (val_bits t i "ival"))

unfoldable pub disk_value : Members → ℕ → ℕ → Printed
disk_value t i tag =
    if tag == float
    then real (single (val_bits t i "fval"))
    else if tag == unsigned_tag
    then decimal (pos (val_bits t i "uval"))
    else decimal (to_signed 32 (val_bits t i "ival"))

unfoldable pub dump_sensor_telem : Members → ℕ → Run (List Print)
unfolding decoded_keys telem_value
dump_sensor_telem t i = do
  check (ltb i max_sensors_per_packet_telem) out_of_bounds
  d ← decoded_keys t i
  done (
      start "pueo_sensor_telem"
      ∷ key "sensor_id" (decimal (pos (t (reading i "sensor_id"))))
      ∷ (d.0
          ++ key "relsecs" (decimal (to_signed 6 (t (reading i "relsecs"))))
            ∷ key "value" (telem_value t i d.1)
            ∷ end
            ∷ []))

unfoldable pub dump_sensors_telem : Members → Run (List Print)
unfolding dump_sensor_telem for_each_run
dump_sensors_telem t = do
  sensors ← for_each_run (t (member "num_packets" ∷ [])) 0 (λ i. dump_sensor_telem t i)
  done (
      start "sensors_telem"
      ∷ (unsigned_keys t ("timeref_secs" ∷ "sensor_id_magic" ∷ "num_packets" ∷ [])
          ++ start_array "sensors" ∷ (sensors ++ end_array ∷ end ∷ [])))

unfoldable pub dump_sensor_disk : Members → ℕ → Run (List Print)
unfolding decoded_keys disk_value
dump_sensor_disk t i = do
  check (ltb i max_sensors_per_packet_disk) out_of_bounds
  d ← decoded_keys t i
  done (
      start "pueo_sensor_disk"
      ∷ key "sensor_id" (decimal (pos (t (reading i "sensor_id"))))
      ∷ (d.0
          ++ key "time_secs" (decimal (pos (t (reading i "time_secs"))))
            ∷ key "time_ms" (decimal (pos (t (reading i "time_ms"))))
            ∷ key "value" (disk_value t i d.1)
            ∷ end
            ∷ []))

unfoldable pub dump_sensors_disk : Members → Run (List Print)
unfolding dump_sensor_disk for_each_run
dump_sensors_disk t = do
  sensors ← for_each_run (t (member "num_packets" ∷ [])) 0 (λ i. dump_sensor_disk t i)
  done (
      start "sensors_disk"
      ∷ (unsigned_keys t ("sensor_id_magic" ∷ "num_packets" ∷ [])
          ++ start_array "sensors" ∷ (sensors ++ end_array ∷ end ∷ [])))
