-- ===== src/Sensors/Row.antt =====
-- A row of the X macros of inc/pueo/sensor_ids.h.
use libpueorawdata.Prelude.{ℕ, String}

-- The type tag and the kind are characters.
pub record Sensor : Type 0 where
  pub subsystem : String
  pub name : String
  pub type_tag : ℕ
  pub kind : ℕ

abbrev pub row : String → String → ℕ → ℕ → Sensor
row s n t k = record { subsystem = s; name = n; type_tag = t; kind = k }

-- `enum e_pueo_sensor_type_tag`: 'F', 'I' and 'U'.
abbrev pub float : ℕ
float = 70

abbrev pub integer : ℕ
integer = 73

abbrev pub unsigned : ℕ
unsigned = 85

-- `enum e_pueo_sensor_kind`: 'V', 'A', 'C', 'W', 'G' and 'X'.
abbrev pub volts : ℕ
volts = 86

abbrev pub amps : ℕ
amps = 65

abbrev pub celsius : ℕ
celsius = 67

abbrev pub watts : ℕ
watts = 87

abbrev pub gauss : ℕ
gauss = 71

abbrev pub bitmask : ℕ
bitmask = 88

-- The 'I' of the currents of the DAQ, which the enum does not have.
abbrev pub current : ℕ
current = 73
