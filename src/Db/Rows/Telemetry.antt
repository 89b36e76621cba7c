-- ===== src/Db/Rows/Telemetry.antt =====
-- Sensors, commands and logs: pueo_db_insert_sensors_telem, _cmd_echo and _logs of src/rawio_db.c.
use Prim.Native.String.{◌++◌ as str_append}
use libpueorawdata.Prelude.{
  ℕ, zero, suc, ◌+◌, ◌-◌, ◌%◌, ◌^◌, true, false, ltb, ◌==◌, if◌then◌else◌, Option, none, some, List,
  [], ◌∷◌, String,
}
use libpueorawdata.Prelude.Int.{pos}
use libpueorawdata.Prelude.Memory.{Bytes}
use libpueorawdata.Prelude.Run.{Run, done, out_of_bounds, check, ◌>>=◌, ◌>>◌}
use libpueorawdata.Formats.Base.{max_sensors_per_packet_telem}
use libpueorawdata.Layout.Access.{Place, member, at, to_signed}
use libpueorawdata.Sensors.{sensor_id_get_compat}
use libpueorawdata.Sensors.Row.{
  float, integer, volts, amps, celsius, watts, gauss, bitmask, unsigned as unsigned_tag,
}
use libpueorawdata.Db.Statement.{
  Engine, sqlite, Value, seconds, number, real, half, bytes, quoted, bare, hex, blank, Statement,
  insert_into, yikes, for_each,
}
use libpueorawdata.Db.Rows.Members.{Members, element, as_unsigned}

-- `h->infinity` and `h->minfinity`.
unfoldable pub infinity : Engine → String
infinity sqlite = "1e999"
infinity _ = "'infinity'"

unfoldable pub minfinity : Engine → String
minfinity sqlite = "-1e999"
minfinity _ = "'-infinity'"

-- A `float16` printed with %f, but for the infinities.
unfoldable pub print_float : Engine → ℕ → Value
unfolding infinity minfinity
print_float e fval =
    if fval == 0x7c00
    then bare (infinity e)
    else if fval == 0xfc00
    then bare (minfinity e)
    else real (half fval)

-- `telem_sensor_print_val`: the value of a sensor with that type tag and these 16 bits.
unfoldable pub print_val : Engine → ℕ → ℕ → Value
unfolding print_float
print_val e tag bits =
    if tag == float
    then print_float e bits
    else if tag == integer
    then number (to_signed 16 bits)
    else if tag == unsigned_tag
    then number (pos bits)
    else blank

-- `get_insert_string`: what the table and its last column are named after.
unfoldable pub kind_name : ℕ → Option String
kind_name c =
    if c == volts
    then some "voltage"
    else if c == amps
    then some "current"
    else if c == celsius
    then some "temperature"
    else if c == watts
    then some "power"
    else if c == bitmask
    then some "flag"
    else if c == gauss
    then some "magnetic_field"
    else none

-- The statement for a reading, by the name of its kind.
unfoldable pub named_statement : Option String → ℕ → String → String → Value → Statement
named_statement none when device sensor value = yikes value
named_statement (some x) when device sensor value =
    insert_into (str_append x "s") ("time" ∷ "device" ∷ "sensor" ∷ x ∷ [])
      (seconds (pos when) ∷ quoted device ∷ quoted sensor ∷ value ∷ [])

unfoldable pub sensor_statement : ℕ → ℕ → String → String → Value → Statement
unfolding kind_name named_statement
sensor_statement when kind device sensor value =
    named_statement (kind_name kind) when device sensor value

-- The name printed for a null pointer, and the 0 that is a character.
abbrev pub or_null : Option String → String
or_null none = "(null)"
or_null (some s) = s

abbrev pub or_zero : Option ℕ → ℕ
or_zero none = 0
or_zero (some c) = c

abbrev pub reading : ℕ → String → Place
reading i name = member "sensors" ∷ at i ∷ member name ∷ []

-- A `uint32_t` sum with a signed 6-bit number.
abbrev pub reading_time : Members → ℕ → ℕ
reading_time t i =
    (t (member "timeref_secs" ∷ [])
      + (let r = t (reading i "relsecs") in if ltb r 32 then r else (r + (2 ^ 32 - 64))))
    % 2 ^ 32

unfoldable pub sensor_row : Engine → Members → ℕ → Run Statement
unfolding sensor_id_get_compat print_val sensor_statement
sensor_row e t i = do
  check (ltb i max_sensors_per_packet_telem) out_of_bounds
  let id = t (reading i "sensor_id")
  let magic = t (member "sensor_id_magic" ∷ [])
  name ← sensor_id_get_compat (λ s. s.name) id magic
  subsystem ← sensor_id_get_compat (λ s. s.subsystem) id magic
  kind ← sensor_id_get_compat (λ s. s.kind) id magic
  tag ← sensor_id_get_compat (λ s. s.type_tag) id magic
  done (
      sensor_statement (reading_time t i) (or_zero kind) (or_null subsystem) (or_null name) (
        print_val e (or_zero tag)
          (t (member "sensors" ∷ at i ∷ member "val" ∷ member "uval" ∷ []))))

-- The loop over the readings: rounds left, and the round.
unfoldable pub sensor_rows : Engine → Members → ℕ → ℕ → Run (List Statement)
unfolding sensor_row
sensor_rows e t zero i = done []
sensor_rows e t (suc n) i = do
  row ← sensor_row e t i
  rows ← sensor_rows e t n (i + 1)
  done (row ∷ rows)

-- What stands before the digits of the data.
unfoldable pub data_opening : Engine → String
data_opening sqlite = ""
data_opening _ = "E'\\x"

abbrev bytes_of : Members → ℕ → Bytes
bytes_of e n = for_each n 0 (λ i. e (element "data" i) ∷ [])

unfoldable pub cmd_echo_row : Engine → Members → Statement
unfolding data_opening for_each
cmd_echo_row engine e =
    let len = e (member "len_m1" ∷ []) + 1 in
    insert_into "cmd_echos" ("time" ∷ "len" ∷ "count" ∷ "data" ∷ []) (
      seconds (pos (e (member "when" ∷ [])))
      ∷ number (pos len)
      ∷ as_unsigned e (member "count" ∷ [])
      ∷ hex (data_opening engine) (bytes_of e len) "'"
      ∷ [])

-- '%.*s': at most n bytes of an array of `limit` from an offset on, up to a 0.
unfoldable pub text_at : Members → String → ℕ → ℕ → ℕ → Run Bytes
text_at l name limit zero off = done []
text_at l name limit (suc n) off = do
  check (ltb off limit) out_of_bounds
  let c = l (element name off)
  rest ← elim (c == 0) [ true ↦ done [] | false ↦ text_at l name limit n (off + 1) ]
  done (if c == 0 then [] else c ∷ rest)

-- The row with its three texts.
unfoldable pub logs_statement : Members → Bytes → Bytes → Bytes → Statement
logs_statement l daemon grep msg =
    insert_into "logs" ("time" ∷ "is_until" ∷ "since_or_until" ∷ "daemon" ∷ "grep" ∷ "logs" ∷ []) (
      seconds (pos (l (member "utc_retrieved" ∷ [])))
      ∷ as_unsigned l (member "is_until" ∷ [])
      ∷ as_unsigned l (member "rel_time_since_or_until" ∷ [])
      ∷ bytes daemon
      ∷ bytes grep
      ∷ bytes msg
      ∷ [])

unfoldable pub logs_row : Members → Run Statement
unfolding text_at logs_statement
logs_row l = do
  let daemon_len = l (member "daemon_len" ∷ [])
  let grep_len = l (member "grep_len" ∷ [])
  daemon ← text_at l "buf" 2048 daemon_len 0
  grep ← text_at l "buf" 2048 grep_len daemon_len
  msg ← text_at l "buf" 2048 (l (member "msg_len" ∷ [])) (daemon_len + grep_len)
  done (logs_statement l daemon grep msg)
