-- ===== src/Tests/Ids.antt =====
-- The theorems on sensor ids applied at ids of both tables.
use libpueorawdata.Prelude.{◌≡◌, refl}
use libpueorawdata.Sensors.{max_sensors, max_sensors_compat, old_sensors}

count : max_sensors ≡ 298
unfolding max_sensors
count = refl

old_count : max_sensors_compat 0x2025 ≡ 237
unfolding max_sensors_compat old_sensors
old_count = refl
