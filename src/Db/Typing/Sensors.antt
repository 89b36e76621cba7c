-- ===== src/Db/Typing/Sensors.antt =====
-- The statements for the readings of a telemetry packet.
use Prim.Native.String.{◌++◌ as str_append}
use libpueorawdata.Prelude.{
  ℕ, ◌≡◌, refl, sym, ◌∙◌, Bool, true, false, ◌&&◌, ◌||◌, not, ◌==◌, if◌then◌else◌, Option, none,
  some, [], ◌∷◌, String, length, all_below, Bool-cases, inl, inr, arith,
}
use libpueorawdata.Prelude.Int.{ℤ, pos}
use libpueorawdata.Layout.Access.{to_signed}
use libpueorawdata.Sensors.{sensors, old_sensors, max_sensors, sensor_at}
use libpueorawdata.Sensors.Row.{
  Sensor, float, integer, volts, amps, celsius, watts, gauss, bitmask, current,
}
use libpueorawdata.Sensors.Row.{unsigned as unsigned_tag}
use libpueorawdata.Db.Statement.{
  Engine, pgsql, sqldir, sqlite, Value, number, quoted, seconds, real_number, insert_into,
}
use libpueorawdata.Db.Rows.Telemetry.{
  kind_name, print_val, print_float, named_statement, sensor_statement,
}
use libpueorawdata.Db.Tables.{init_statements}
use libpueorawdata.Db.Typing.{fits, statement_typed}

-- A float, an integer or an unsigned number; and a kind with a table, or the letter of the currents.
abbrev pub has_tag : ℕ → Bool
has_tag tag = (tag == float) || ((tag == integer) || (tag == unsigned_tag))

abbrev pub is_there : Option String → Bool
is_there none = false
is_there (some x) = true

abbrev pub is_valid : Sensor → Bool
is_valid s =
    has_tag s.type_tag
    && (if is_there (kind_name s.kind) then not (s.kind == current) else s.kind == current)

pub current_valid : all_below max_sensors (λ id. is_valid (sensor_at sensors id)) ≡ true
unfolding max_sensors sensors kind_name all_below
current_valid = refl

pub old_valid : all_below (length old_sensors) (λ id. is_valid (sensor_at old_sensors id)) ≡ true
unfolding old_sensors kind_name all_below
old_valid = refl

print_float-fits : (e : Engine) (bits : ℕ) → fits e real_number (print_float e bits) ≡ true
unfolding fits print_float
print_float-fits e bits = ground arith

number_fits : (e : Engine) (z : ℤ) → fits e real_number (number z) ≡ true
unfolding fits
number_fits pgsql z = refl
number_fits sqldir z = refl
number_fits sqlite z = refl

print_val-fits :
    (e : Engine) (tag bits : ℕ)
    → has_tag tag ≡ true
    → fits e real_number (print_val e tag bits) ≡ true
unfolding fits print_val
print_val-fits e tag bits h = elim (Bool-cases (tag == float)) [
  | inl f ↦ rw (print_val, f) (print_float-fits e bits)
  | inr not_f ↦ elim (Bool-cases (tag == integer)) [
    | inl i ↦ rw (print_val, not_f, i) (number_fits e (to_signed 16 bits))
    | inr not_i ↦ elim (Bool-cases (tag == unsigned_tag)) [
      | inl u ↦ rw (print_val, not_f, not_i, u) (number_fits e (pos bits))
      | inr not_u ↦ ground arith
    ]
  ]
]

if_case : {A : Type 0} (P : A → Type 0) {x y : A} (b : Bool) → P x → P y → P (if b then x else y)
if_case P true p q = p
if_case P false p q = q

-- Every name of a kind, and none.
kind_cases :
    (P : Option String → Type 0)
    → P (some "voltage")
    → P (some "current")
    → P (some "temperature")
    → P (some "power")
    → P (some "flag")
    → P (some "magnetic_field")
    → P none
    → (k : ℕ) → P (kind_name k)
unfolding kind_name
kind_cases P v a c w x g n k = if_case P (k == volts) v (
    if_case P (k == amps) a (
      if_case P (k == celsius) c
        (if_case P (k == watts) w (if_case P (k == bitmask) x (if_case P (k == gauss) g n)))))

-- A statement for a value that fits the column of a kind's table; or none, for a kind without table.
abbrev KindFits : Engine → Bool → Value → Option String → Type 0
KindFits e ts v none = Unit {0}
KindFits e ts v (some x) =
    (when : ℕ) (device sensor : String)
    → statement_typed e (init_statements e ts) (
        insert_into (str_append x "s") ("time" ∷ "device" ∷ "sensor" ∷ x ∷ [])
          (seconds (pos when) ∷ quoted device ∷ quoted sensor ∷ v ∷ []))
      ≡ true

pub both_first : (x y : Bool) → (x && y) ≡ true → x ≡ true
both_first x y h = ground arith

pub both_second : (x y : Bool) → (x && y) ≡ true → y ≡ true
both_second x y h = ground arith

abbrev Ok : Engine → Value → Type 0
Ok e v = ℕ → String → String → (fits e real_number v && true) ≡ true

ok_lem : (e : Engine) (v : Value) → fits e real_number v ≡ true → Ok e v
ok_lem e v h when d s = rw h

kind_fits :
    (e : Engine) (ts : Bool) (v : Value) (k : ℕ)
    → fits e real_number v ≡ true
    → KindFits e ts v (kind_name k)
unfolding statement_typed init_statements fits
kind_fits pgsql true v k h =
    let ok : Ok pgsql v = ok_lem pgsql v h in
    kind_cases (KindFits pgsql true v) ok ok ok ok ok ok tt k
kind_fits pgsql false v k h =
    let ok : Ok pgsql v = ok_lem pgsql v h in
    kind_cases (KindFits pgsql false v) ok ok ok ok ok ok tt k
kind_fits sqldir true v k h =
    let ok : Ok sqldir v = ok_lem sqldir v h in
    kind_cases (KindFits sqldir true v) ok ok ok ok ok ok tt k
kind_fits sqldir false v k h =
    let ok : Ok sqldir v = ok_lem sqldir v h in
    kind_cases (KindFits sqldir false v) ok ok ok ok ok ok tt k
kind_fits sqlite true v k h =
    let ok : Ok sqlite v = ok_lem sqlite v h in
    kind_cases (KindFits sqlite true v) ok ok ok ok ok ok tt k
kind_fits sqlite false v k h =
    let ok : Ok sqlite v = ok_lem sqlite v h in
    kind_cases (KindFits sqlite false v) ok ok ok ok ok ok tt k

by_name :
    (e : Engine) (ts : Bool) (name : Option String) (c : Bool) (when : ℕ) (device sensor : String)
    (v : Value)
    → KindFits e ts v name
    → (if is_there name then not c else c) ≡ true
    → statement_typed e (init_statements e ts) (named_statement name when device sensor v) ≡ not c
unfolding statement_typed named_statement
by_name e ts none c when device sensor v fit h = rw h refl
by_name e ts (some x) c when device sensor v fit h = fit when device sensor ∙ sym h

-- The statement of a valid sensor fits unless its kind is the letter of the currents.
pub sensor_statement_fits :
    (e : Engine) (ts : Bool) (s : Sensor) (when bits : ℕ)
    → is_valid s ≡ true
    → statement_typed e
        (init_statements e ts)
        (sensor_statement when s.kind s.subsystem s.name (print_val e s.type_tag bits))
      ≡ not (s.kind == current)
unfolding sensor_statement statement_typed
sensor_statement_fits e ts s when bits ok =
    by_name e ts (kind_name s.kind) (s.kind == current) when s.subsystem s.name
      (print_val e s.type_tag bits)
      (kind_fits e ts (print_val e s.type_tag bits) s.kind
        (print_val-fits e s.type_tag bits (both_first (has_tag s.type_tag) _ ok)))
      (both_second (has_tag s.type_tag) _ ok)
