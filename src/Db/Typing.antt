-- ===== src/Db/Typing.antt =====
-- Whether the statements of src/rawio_db.c fit the tables that its init_db creates.
pub mod Plain
pub mod Rows
pub mod Sensors
pub mod Plainness
pub mod Readings
use text.Mathlib.Text.{◌==◌ as str_eq}
use libpueorawdata.Prelude.{
  Bool, true, false, ◌&&◌, ◌||◌, if◌then◌else◌, Option, none, some, List, [], ◌∷◌, String,
}
use libpueorawdata.Db.Statement.{
  Engine, pgsql, sqldir, sqlite, Value, timestamp, seconds, number, real, character, bytes, quoted,
  bare, hex, blank, SqlType, serial, autoincrement, timestamptz, datetime, integer, real_number,
  boolean, char_1, varchar, text_type, bytea, Column, Statement, insert_into, yikes, create_table,
}

-- What hexadecimal digits of BYTEA stand behind; in E'…' the backslash is written twice.
abbrev hex_opening : String → Bool
hex_opening s = str_eq s "'\\x" || str_eq s "E'\\\\x"

-- A literal text.
abbrev pub text_fits : Value → Bool
text_fits (bytes s) = true
text_fits (quoted s) = true
text_fits (hex opening s closing) = hex_opening opening
text_fits v = false

-- Whether a value is of the type of a column, a real number being rounded for INTEGER. A number is no BOOLEAN but for sqlite, which has no
-- other Booleans.
unfoldable pub fits : Engine → SqlType → Value → Bool
fits e timestamptz (timestamp s ns) = true
fits e timestamptz (seconds s) = true
fits e datetime (timestamp s ns) = true
fits e datetime (seconds s) = true
fits e integer (number n) = true
fits e integer (real r) = true
fits e real_number (number n) = true
fits e real_number (real r) = true
fits e real_number (bare s) = true
fits sqlite boolean (number n) = true
fits e char_1 (character c) = true
fits e varchar v = text_fits v
fits e text_type v = text_fits v
fits e bytea v = text_fits v
fits e t v = false

-- The columns of a table, if it is created.
unfoldable pub columns_of : String → List Statement → Option (List Column)
columns_of t [] = none
columns_of t (create_table name cs ∷ ss) =
    let later = columns_of t ss in if str_eq t name then some cs else later
columns_of t (s ∷ ss) = columns_of t ss

unfoldable pub type_of : String → List Column → Option SqlType
type_of n [] = none
type_of n (c ∷ cs) = let later = type_of n cs in if str_eq n c.name then some c.sql else later

abbrev pub fits_column : Engine → Option SqlType → Value → Bool
fits_column e none v = false
fits_column e (some t) v = fits e t v

-- As many values as names, each name that of a column, and each value one that fits it.
unfoldable pub values_fit : Engine → List Column → List String → List Value → Bool
unfolding fits type_of
values_fit e cs [] [] = true
values_fit e cs (n ∷ ns) (v ∷ vs) = fits_column e (type_of n cs) v && values_fit e cs ns vs
values_fit e cs ns vs = false

abbrev pub is_among : String → List String → Bool
is_among n [] = false
is_among n (m ∷ ms) = str_eq n m || is_among n ms

-- Whether an insertion names every column that is NOT NULL. `uid`, which is not one of these, numbers
-- itself.
unfoldable pub required_named : List Column → List String → Bool
required_named [] ns = true
required_named (c ∷ cs) ns =
    let rest = required_named cs ns in if c.not_null then is_among c.name ns && rest else rest

unfoldable pub statement_typed : Engine → List Statement → Statement → Bool
unfolding columns_of values_fit required_named
statement_typed e created (insert_into t ns vs) = elim (columns_of t created) [
  | none ↦ false
  | some cs ↦ required_named cs ns && values_fit e cs ns vs
]
statement_typed e created s = false

unfoldable pub all_typed : Engine → List Statement → List Statement → Bool
unfolding statement_typed
all_typed e created [] = true
all_typed e created (s ∷ ss) = statement_typed e created s && all_typed e created ss
