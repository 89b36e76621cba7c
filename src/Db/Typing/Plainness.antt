-- ===== src/Db/Typing/Plainness.antt =====
-- Which readings of a telemetry packet are printed as values of SQL.
use libpueorawdata.Prelude.{
  ℕ, ◌<◌, ◌%◌, ◌^◌, ◌≡◌, refl, ◌∙◌, Bool, true, false, ◌&&◌, not, ltb, lt→ltb, ◌==◌, Option, none,
  some, String, length, all_below, Bool-cases, inl, inr, arith,
}
use libpueorawdata.Prelude.Int.{pos}
use libpueorawdata.Layout.Access.{to_signed}
use libpueorawdata.Sensors.{sensors, old_sensors, max_sensors, sensor_at}
use libpueorawdata.Sensors.Row.{Sensor, float, integer, unsigned as unsigned_tag}
use libpueorawdata.Db.Statement.{Engine, pgsql, sqldir, sqlite, Value, number}
use libpueorawdata.Db.Rows.Telemetry.{
  kind_name, print_val, print_float, named_statement, sensor_statement,
}
use libpueorawdata.Db.Typing.Plain.{unquoted, plain, finite, statement_plain}
use libpueorawdata.Db.Typing.Sensors.{has_tag, both_first, both_second}

-- The names of both tables have no quotes.
abbrev pub is_unquoted : Sensor → Bool
is_unquoted s = unquoted s.subsystem && unquoted s.name

pub current_unquoted : all_below max_sensors (λ id. is_unquoted (sensor_at sensors id)) ≡ true
unfolding max_sensors sensors unquoted all_below
current_unquoted = refl

pub old_unquoted :
    all_below (length old_sensors) (λ id. is_unquoted (sensor_at old_sensors id)) ≡ true
unfolding old_sensors unquoted all_below
old_unquoted = refl

-- The bits of a `float16` that is NaN.
abbrev pub is_nan : ℕ → Bool
is_nan bits = ltb 0x7c00 (bits % 0x8000)

-- The 16 bits of a value that %f prints as a NaN.
abbrev pub prints_nan : Sensor → ℕ → Bool
prints_nan s bits = (s.type_tag == float) && is_nan bits

print_float-plain :
    (e : Engine) (bits : ℕ) → bits < 2 ^ 16 → plain e (print_float e bits) ≡ not (is_nan bits)
unfolding plain print_float finite
print_float-plain e bits h = ground arith

number_plain-pos : (e : Engine) (n : ℕ) → n < 2 ^ 16 → plain e (number (pos n)) ≡ true
unfolding plain
number_plain-pos pgsql n h = lt→ltb n (2 ^ 31) (omega (arith, h))
number_plain-pos sqldir n h = lt→ltb n (2 ^ 31) (omega (arith, h))
number_plain-pos sqlite n h = lt→ltb n (2 ^ 63) (omega (arith, h))

number_plain-signed : (e : Engine) (n : ℕ) → n < 2 ^ 16 → plain e (number (to_signed 16 n)) ≡ true
unfolding plain
number_plain-signed pgsql n h = ground arith
number_plain-signed sqldir n h = ground arith
number_plain-signed sqlite n h = ground arith

print_val-plain :
    (e : Engine) (tag bits : ℕ)
    → bits < 2 ^ 16
    → has_tag tag ≡ true
    → plain e (print_val e tag bits) ≡ not ((tag == float) && is_nan bits)
unfolding print_val
print_val-plain e tag bits h t = elim (Bool-cases (tag == float)) [
  | inl f ↦ rw (print_val, f) (print_float-plain e bits h)
  | inr not_f ↦ elim (Bool-cases (tag == integer)) [
    | inl i ↦ rw (print_val, not_f, i) (number_plain-signed e bits h)
    | inr not_i ↦ elim (Bool-cases (tag == unsigned_tag)) [
      | inl u ↦ rw (print_val, not_f, not_i, u) (number_plain-pos e bits h)
      | inr not_u ↦ ground arith
    ]
  ]
]

and_true : (b : Bool) → (b && true) ≡ b
and_true true = refl
and_true false = refl

named-plain :
    (e : Engine) (name : Option String) (when : ℕ) (device sensor : String) (v : Value)
    → unquoted device ≡ true
    → unquoted sensor ≡ true
    → statement_plain e (named_statement name when device sensor v) ≡ plain e v
unfolding statement_plain named_statement plain
named-plain e none when device sensor v d s = refl
named-plain e (some x) when device sensor v d s = rw (d, s) (and_true (plain e v))

-- The statement of a sensor of the tables is plain unless a NaN is printed.
pub sensor_statement_plain :
    (e : Engine) (s : Sensor) (when bits : ℕ)
    → bits < 2 ^ 16
    → has_tag s.type_tag ≡ true
    → is_unquoted s ≡ true
    → statement_plain e
        (sensor_statement when s.kind s.subsystem s.name (print_val e s.type_tag bits))
      ≡ not (prints_nan s bits)
unfolding sensor_statement
sensor_statement_plain e s when bits h tag names =
    named-plain e (kind_name s.kind) when s.subsystem s.name (print_val e s.type_tag bits)
      (both_first (unquoted s.subsystem) _ names) (both_second (unquoted s.subsystem) _ names)
    ∙ print_val-plain e s.type_tag bits h tag
