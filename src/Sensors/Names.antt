-- ===== src/Sensors/Names.antt =====
-- The tables' ids and names.
use text.Mathlib.Text.{◌==◌ as str_eq}
use text.Mathlib.TextEquality.{eq_iff}
use libpueorawdata.Prelude.{
  ℕ, zero, suc, ◌<◌, ◌^◌, ◌≡◌, ◌≢◌, refl, subst, sym, ap, ◌∙◌, Bool, true, Bool-cases, inl, ◌&&◌,
  not, ◌==◌, inr, ltb, lt→ltb, le→ltb, ==-of_ne, Option, none, some, List, [], ◌∷◌, map, length,
  get_or, String, arith,
}
use libpueorawdata.Prelude.Run.{Run, done, fault, assert_failed, ◌>>=◌}
use libpueorawdata.Sensors.{
  sensors, old_sensors, sensor_id_bits, max_sensors, max_sensors_compat, sensor_at, sensor_id_get,
  sensor_id_get_compat, sensor_id_get_compat_ndebug, subsystem_plus_name,
}
use libpueorawdata.Sensors.Row.{Sensor}

-- Is a name not among others, and are all names of a list different?
abbrev is_new : String → List String → Bool
is_new s [] = true
is_new s (t ∷ ts) = not (str_eq s t) && is_new s ts

abbrev all_new : List String → Bool
all_new [] = true
all_new (s ∷ ss) = is_new s ss && all_new ss

abbrev names : List Sensor → List String
names table = map subsystem_plus_name table

names_new : all_new (names sensors) ≡ true
unfolding sensors
names_new = refl

old_names_new : all_new (names old_sensors) ≡ true
unfolding old_sensors
old_names_new = refl

is_new-get_or :
    (s d : String) (ts : List String) (i : ℕ)
    → is_new s ts ≡ true
    → i < length ts
    → s ≢ get_or ts i d
is_new-get_or s d [] i h lt = absurd (omega arith)
is_new-get_or s d (t ∷ ts) zero h lt = ground (arith, eq_iff s t)
is_new-get_or s d (t ∷ ts) (suc i) h lt = is_new-get_or s d ts i (ground arith) (omega arith)

all_new-get_or :
    (d : String) (ts : List String) (i j : ℕ)
    → all_new ts ≡ true
    → i < length ts
    → j < length ts
    → i ≢ j
    → get_or ts i d ≢ get_or ts j d
all_new-get_or d [] i j h hi hj other = absurd (omega arith)
all_new-get_or d (t ∷ ts) zero zero h hi hj other = absurd (omega arith)
all_new-get_or d (t ∷ ts) zero (suc j) h hi hj other =
    is_new-get_or t d ts j (ground arith) (omega arith)
all_new-get_or d (t ∷ ts) (suc i) zero h hi hj other =
    λ e. is_new-get_or t d ts i (ground arith) (omega arith) (sym e)
all_new-get_or d (t ∷ ts) (suc i) (suc j) h hi hj other =
    all_new-get_or d ts i j (ground arith) (omega arith) (omega arith) (omega arith)

length-names : (table : List Sensor) → length (names table) ≡ length table
length-names [] = refl
length-names (s ∷ ss) = ap suc (length-names ss)

get_or-names :
    (table : List Sensor) (i : ℕ)
    → i < length table
    → get_or (names table) i "" ≡ subsystem_plus_name (sensor_at table i)
get_or-names [] i h = absurd (omega arith)
get_or-names (s ∷ ss) zero h = refl
get_or-names (s ∷ ss) (suc i) h = get_or-names ss i (omega arith)

names_differ :
    (table : List Sensor) (i j : ℕ)
    → all_new (names table) ≡ true
    → i < length table
    → j < length table
    → i ≢ j
    → subsystem_plus_name (sensor_at table i) ≢ subsystem_plus_name (sensor_at table j)
names_differ table i j h hi hj other e =
    all_new-get_or "" (names table) i j h (omega (arith, length-names table))
      (omega (arith, length-names table)) other
      (get_or-names table i hi ∙ (e ∙ sym (get_or-names table j hj)))

-- The result of a call, and a name for no result.
abbrev name_of : Run (Option String) → String
name_of (done (some s)) = s
name_of (done none) = ""
name_of (fault e) = ""

-- The three cases of a magic number.
pub current_get :
    {A : Type 0} (column : Sensor → A) (id : ℕ)
    → id < max_sensors
    → sensor_id_get_compat column id 0x2525 ≡ done (some (column (sensor_at sensors id)))
unfolding sensor_id_get_compat
current_get column id h = rw (lt→ltb id max_sensors h)

pub old_get :
    {A : Type 0} (column : Sensor → A) (id : ℕ)
    → id < length old_sensors
    → sensor_id_get_compat column id 0x2025 ≡ done (some (column (sensor_at old_sensors id)))
unfolding sensor_id_get_compat max_sensors_compat
old_get column id h = rw (lt→ltb id (length old_sensors) h)

-- Two different ids below MAX_SENSORS have different names with their subsystem, by
-- pueo_sensor_id_get_compat_subsystem_plus_name with the current magic number.
pub current_names_differ :
    (i j : ℕ)
    → i < max_sensors
    → j < max_sensors
    → i ≢ j
    → sensor_id_get_compat subsystem_plus_name i 0x2525
      ≢ sensor_id_get_compat subsystem_plus_name j 0x2525
unfolding max_sensors
current_names_differ i j hi hj other e = names_differ sensors i j names_new hi hj other (
    ap name_of
      (sym (current_get subsystem_plus_name i hi) ∙ (e ∙ current_get subsystem_plus_name j hj)))

-- Two different ids below the maximum for the magic number 0x2025 have different names with their
-- subsystem, by pueo_sensor_id_get_compat_subsystem_plus_name with that number.
pub old_names_differ :
    (i j : ℕ)
    → i < max_sensors_compat 0x2025
    → j < max_sensors_compat 0x2025
    → i ≢ j
    → sensor_id_get_compat subsystem_plus_name i 0x2025
      ≢ sensor_id_get_compat subsystem_plus_name j 0x2025
unfolding max_sensors_compat
old_names_differ i j hi hj other e =
    names_differ old_sensors i j old_names_new hi hj other
      (ap name_of (sym (old_get subsystem_plus_name i hi) ∙ (e ∙ old_get subsystem_plus_name j hj)))

-- With the current magic number every pueo_sensor_id_get_compat_X does what pueo_sensor_id_get_X
-- does, the failed assertion included.
pub sensor_id_get_compat-current :
    {A : Type 0} (column : Sensor → A) (id : ℕ)
    → sensor_id_get_compat column id 0x2525 ≡ (sensor_id_get column id >>= λ a. done (some a))
unfolding sensor_id_get_compat sensor_id_get max_sensors_compat
sensor_id_get_compat-current column id = elim (Bool-cases (ltb id max_sensors)) [
  | inl known ↦ rw known
  | inr unknown ↦ rw unknown
]

-- With a magic number that is neither the current one nor 0x2025 every pueo_sensor_id_get_compat_X
-- ends the program by its assertion, whatever the id.
pub sensor_id_get_compat-unknown :
    {A : Type 0} (column : Sensor → A) (id magic : ℕ)
    → magic ≢ 0x2525
    → magic ≢ 0x2025
    → sensor_id_get_compat column id magic ≡ fault assert_failed
unfolding sensor_id_get_compat max_sensors_compat
sensor_id_get_compat-unknown column id magic a b =
    rw (==-of_ne magic 0x2525 a, ==-of_ne magic 0x2025 b, le→ltb id 0 (omega arith))

-- A build without assertions returns the same for the ids that the assertion lets pass.
pub sensor_id_get_compat-ndebug :
    {A : Type 0} (column : Sensor → A) (id magic : ℕ)
    → id < max_sensors_compat magic
    → sensor_id_get_compat_ndebug column id magic ≡ sensor_id_get_compat column id magic
unfolding sensor_id_get_compat sensor_id_get_compat_ndebug max_sensors_compat max_sensors
sensor_id_get_compat-ndebug column id magic h = elim (Bool-cases (magic == 0x2525)) [
  | inl new ↦
      let size : max_sensors_compat magic ≡ length sensors = rw (max_sensors_compat, new) in
      let small : id < length sensors = subst (λ n. id < n) size h in
      rw (new, lt→ltb id (length sensors) small)
  | inr not_new ↦ elim (Bool-cases (magic == 0x2025)) [
    | inl old ↦
        let size : max_sensors_compat magic ≡ length old_sensors =
          rw (max_sensors_compat, not_new, old) in
        let small : id < length old_sensors = subst (λ n. id < n) size h in
        rw (not_new, old, lt→ltb id (length old_sensors) small)
    | inr not_old ↦
        let size : max_sensors_compat magic ≡ 0 = rw (max_sensors_compat, not_new, not_old) in
        absurd (omega (arith, subst (λ n. id < n) size h))
  ]
]

-- For every magic number, all ids fit the bits of the sensor id.
pub max_sensors_compat-bound : (magic : ℕ) → max_sensors_compat magic < 2 ^ sensor_id_bits
unfolding max_sensors_compat max_sensors sensors old_sensors
max_sensors_compat-bound magic = ground arith
