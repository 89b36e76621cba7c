-- ===== src/Db/Typing/Readings.antt =====
-- The loop over the readings of a telemetry packet.
use libpueorawdata.Prelude.{
  ℕ, zero, suc, ◌+◌, ◌<◌, ◌≤◌, ◌≡◌, refl, sym, ap, subst, Bool, true, ◌&&◌, not, ◌==◌,
  if◌then◌else◌, some, List, [], ◌∷◌, length, ◌⊎◌, inl, inr, lt→ltb, arith,
}
use libpueorawdata.Prelude.Run.{done}
use libpueorawdata.Layout.Access.{member, at}
use libpueorawdata.Datatype.{sensors_telem}
use libpueorawdata.Sensors.{
  sensors, old_sensors, current_magic, max_sensors, max_sensors_compat, sensor_at,
  sensor_id_get_compat,
}
use libpueorawdata.Sensors.Names.{current_get, old_get}
use libpueorawdata.Sensors.Row.{Sensor, current}
use libpueorawdata.Db.Statement.{Engine, Statement}
use libpueorawdata.Db.Rows.Members.{Members}
use libpueorawdata.Db.Rows.Telemetry.{
  print_val, sensor_statement, sensor_row, sensor_rows, reading, reading_time,
}
use libpueorawdata.Db.Insert.{rows}
use libpueorawdata.Db.Typing.Plainness.{prints_nan}

-- The two tables' magic numbers, and the sensor that an id stands for.
abbrev pub IsKnown : ℕ → Type 0
IsKnown magic = (magic ≡ 0x2525) ⊎ (magic ≡ 0x2025)

abbrev pub sensor_of : ℕ → ℕ → Sensor
sensor_of magic id =
    if magic == current_magic then sensor_at sensors id else sensor_at old_sensors id

-- What holds of both tables holds of every known magic number.
by_magic : (P : ℕ → Type 0) (magic : ℕ) → IsKnown magic → P 0x2525 → P 0x2025 → P magic
by_magic P magic (inl new) p q = subst P (sym new) p
by_magic P magic (inr old) p q = subst P (sym old) q

current_max : max_sensors_compat 0x2525 ≡ max_sensors
unfolding max_sensors_compat
current_max = refl

old_max : max_sensors_compat 0x2025 ≡ length old_sensors
unfolding max_sensors_compat
old_max = refl

known_get :
    {A : Type 0} (column : Sensor → A) (id magic : ℕ)
    → IsKnown magic
    → id < max_sensors_compat magic
    → sensor_id_get_compat column id magic ≡ done (some (column (sensor_of magic id)))
known_get column id magic known =
    by_magic
      (λ m.
        id < max_sensors_compat m
        → sensor_id_get_compat column id m ≡ done (some (column (sensor_of m id))))
      magic known (λ h. current_get column id (subst (λ n. id < n) current_max h))
      (λ h. old_get column id (subst (λ n. id < n) old_max h))

abbrev pub magic_of : Members → ℕ
magic_of t = t (member "sensor_id_magic" ∷ [])

abbrev pub id_of : Members → ℕ → ℕ
id_of t i = t (reading i "sensor_id")

-- The sensor of reading i, and the 16 bits of its value.
abbrev pub sensor_at_reading : Members → ℕ → Sensor
sensor_at_reading t i = sensor_of (magic_of t) (id_of t i)

abbrev pub value_bits : Members → ℕ → ℕ
value_bits t i = t (member "sensors" ∷ at i ∷ member "val" ∷ member "uval" ∷ [])

abbrev statement_of : Engine → Sensor → ℕ → ℕ → Statement
statement_of e s when bits =
    sensor_statement when s.kind s.subsystem s.name (print_val e s.type_tag bits)

sensor_row_lem :
    (e : Engine) (t : Members) (i : ℕ)
    → i < 256
    → IsKnown (magic_of t)
    → id_of t i < max_sensors_compat (magic_of t)
    → sensor_row e t i
      ≡ done (statement_of e (sensor_at_reading t i) (reading_time t i) (value_bits t i))
unfolding sensor_row
sensor_row_lem e t i within known h = rw (
  lt→ltb i 256 within,
  known_get (λ s. s.name) (id_of t i) (magic_of t) known h,
  known_get (λ s. s.subsystem) (id_of t i) (magic_of t) known h,
  known_get (λ s. s.kind) (id_of t i) (magic_of t) known h,
  known_get (λ s. s.type_tag) (id_of t i) (magic_of t) known h,
)

-- Whether no reading i, i + 1, … of n has the letter of the currents for its kind.
unfoldable pub no_currents : Members → ℕ → ℕ → Bool
no_currents t zero i = true
no_currents t (suc n) i = not ((sensor_at_reading t i).kind == current) && no_currents t n (i + 1)

-- Whether none of them prints a NaN.
unfoldable pub no_nans : Members → ℕ → ℕ → Bool
no_nans t zero i = true
no_nans t (suc n) i =
    not (prints_nan (sensor_at_reading t i) (value_bits t i)) && no_nans t n (i + 1)

-- The statements of the readings i, i + 1, … of n.
unfoldable statements_of : Engine → Members → ℕ → ℕ → List Statement
statements_of e t zero i = []
statements_of e t (suc n) i =
    statement_of e (sensor_at_reading t i) (reading_time t i) (value_bits t i)
    ∷ statements_of e t n (i + 1)

sensor_rows_lem :
    (e : Engine) (t : Members) (n i : ℕ)
    → n + i ≤ 256
    → IsKnown (magic_of t)
    → ((j : ℕ) → j < n + i → id_of t j < max_sensors_compat (magic_of t))
    → (sensor_rows e t n i ≡ done (statements_of e t n i)) × (length (statements_of e t n i) ≡ n)
unfolding sensor_rows statements_of
sensor_rows_lem e t zero i within known ids = (refl, refl)
sensor_rows_lem e t (suc n) i within known ids =
    let (returns, size) =
      sensor_rows_lem e t n (i + 1) (omega arith) known (λ j h. ids j (omega arith)) in
    (rw (sensor_row_lem e t i (omega arith) known (ids i (omega arith)), returns), ap suc size)

pub sensors_telem-returns :
    (e : Engine) (t : Members)
    → t (member "num_packets" ∷ []) ≤ 256
    → IsKnown (magic_of t)
    → ((j : ℕ) → j < t (member "num_packets" ∷ []) → id_of t j < max_sensors_compat (magic_of t))
    → (written : List Statement) × (rows sensors_telem e t ≡ done written)
unfolding rows
sensors_telem-returns e t within known ids =
    let n = t (member "num_packets" ∷ []) in
    (
      statements_of e t n 0,
      (sensor_rows_lem e t n 0 (omega arith) known (λ j h. ids j (omega arith))).0,
    )
