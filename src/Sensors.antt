-- ===== src/Sensors.antt =====
-- src/sensor_ids.c over the tables of inc/pueo/sensor_ids.h and inc/pueo/sensor_ids_compat.h.
pub mod Row
mod Current1
mod Current2
mod Old1
mod Old2
pub mod Names
unfoldable pub use Current1.{first_sensors}
unfoldable pub use Current2.{last_sensors}
unfoldable pub use Old1.{first_old_sensors}
unfoldable pub use Old2.{last_old_sensors}
use Prim.Native.String.{◌++◌ as str_append}
use libpueorawdata.Prelude.{
  ℕ, Bool, ltb, ◌==◌, if◌then◌else◌, Option, none, some, List, [], ◌∷◌, ◌++◌, length, get_or,
  String,
}
use libpueorawdata.Prelude.Run.{Run, done, assert_failed, out_of_bounds, check, ◌>>=◌, ◌>>◌}
use libpueorawdata.Sensors.Row.{Sensor, row}

unfoldable pub sensors : List Sensor
unfolding first_sensors last_sensors
sensors = first_sensors ++ last_sensors

-- The table of the magic number 0x2025.
unfoldable pub old_sensors : List Sensor
unfolding first_old_sensors last_old_sensors
old_sensors = first_old_sensors ++ last_old_sensors

abbrev pub current_magic : ℕ
current_magic = 0x2525

abbrev pub old_magic : ℕ
old_magic = 0x2025

abbrev pub sensor_id_bits : ℕ
sensor_id_bits = 10

-- MAX_SENSORS and MAX_SENSORS_COMPAT.
unfoldable pub max_sensors : ℕ
unfolding sensors
max_sensors = length sensors

unfoldable pub max_sensors_compat : ℕ → ℕ
unfolding max_sensors old_sensors
max_sensors_compat magic =
    if magic == current_magic
    then max_sensors
    else if magic == old_magic
    then length old_sensors
    else 0

abbrev pub no_sensor : Sensor
no_sensor = row "" "" 0 0

abbrev pub sensor_at : List Sensor → ℕ → Sensor
sensor_at table id = get_or table id no_sensor

-- `pueo_sensor_id_get_X`, for the column X.
unfoldable pub sensor_id_get : {A : Type 0} → (Sensor → A) → ℕ → Run A
unfolding max_sensors
sensor_id_get column id = do
  check (ltb id max_sensors) assert_failed
  done (column (sensor_at sensors id))

-- `pueo_sensor_id_get_compat_X`; none is the 0 that is returned for an unknown magic number.
unfoldable pub sensor_id_get_compat : {A : Type 0} → (Sensor → A) → ℕ → ℕ → Run (Option A)
unfolding max_sensors_compat
sensor_id_get_compat column id magic = do
  check (ltb id (max_sensors_compat magic)) assert_failed
  done (
      if magic == current_magic
      then some (column (sensor_at sensors id))
      else if magic == old_magic
      then some (column (sensor_at old_sensors id))
      else none)

-- The same in a build with NDEBUG, which has no assertion.
unfoldable pub sensor_id_get_compat_ndebug : {A : Type 0} → (Sensor → A) → ℕ → ℕ → Run (Option A)
unfolding sensors old_sensors
sensor_id_get_compat_ndebug column id magic =
    if magic == current_magic
    then (check (ltb id (length sensors)) out_of_bounds
        >> done (some (column (sensor_at sensors id))))
    else if magic == old_magic
    then (check (ltb id (length old_sensors)) out_of_bounds
        >> done (some (column (sensor_at old_sensors id))))
    else done none

-- The column `#SUBSYS"_"#NAME`.
abbrev pub subsystem_plus_name : Sensor → String
subsystem_plus_name s = str_append s.subsystem (str_append "_" s.name)
