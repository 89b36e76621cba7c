-- ===== src/Db/Statement.antt =====
-- The SQL statements that src/rawio_db.c writes: their tables, columns and values. Spaces, commas
-- and line ends are not kept.
use Prim.Native.String.{◌++◌ as str_append}
use libpueorawdata.Prelude.{
  ℕ, ◌+◌, ◌/◌, ◌%◌, zero, suc, Bool, true, false, String, List, [], ◌∷◌, ◌++◌, get_or,
}
use libpueorawdata.Prelude.Int.{ℤ}
use libpueorawdata.Prelude.Memory.{Bytes}

-- `pueo_db_handle`'s `type`.
pub data Engine : Type 0 where
  pgsql sqldir sqlite : Engine

-- A `double`, as the expression that the code evaluates. `single` and `half` are the bits of a
-- `float` and of a `float16`; `low_word` is a double of which an `int` gave the low half, the high half
-- being whatever the stack held.
pub data Real : Type 0 where
  single half low_word : ℕ → Real
  of_int : ℤ → Real
  decimal : String → Real
  quotient product difference : Real → Real → Real
  root : Real → Real

-- What one conversion of `fprintf` prints: TO_TIMESTAMP of seconds, or of seconds and nanoseconds
-- as their decimal fraction; %d, %i, %u and %lu; %f; '%c'; '%.*s'; '%s'; a text with no quotes of its
-- own; hexadecimal digits between what stands before and behind them; nothing at all; '%c' and %d of the
-- low bits of a double's representation.
pub data Value : Type 0 where
  timestamp : ℕ → ℕ → Value
  seconds : ℤ → Value
  number : ℤ → Value
  real : Real → Value
  character : ℕ → Value
  bytes : Bytes → Value
  quoted : String → Value
  bare : String → Value
  hex : String → Bytes → String → Value
  blank : Value
  low_character low_int : Real → Value

-- The types of columns, as they are spelled for the engines.
pub data SqlType : Type 0 where
  serial autoincrement timestamptz datetime : SqlType
  integer real_number boolean char_1 varchar text_type bytea : SqlType

pub record Column : Type 0 where
  pub name : String
  pub sql : SqlType
  pub not_null : Bool

abbrev pub column : String → SqlType → Column
column n s = record { name = n; sql = s; not_null = false }

abbrev pub not_null_column : String → SqlType → Column
not_null_column n s = record { name = n; sql = s; not_null = true }

-- `yikes` is the text that stands for a sensor of unknown kind.
pub data Statement : Type 0 where
  insert_into : String → List String → List Value → Statement
  yikes : Value → Statement
  create_table : String → List Column → Statement
  create_index create_hypertable : String → String → Statement
  create_extension : Statement

-- %i of a small number, in the name of a column.
digit : ℕ → String
digit d = get_or ("0" ∷ "1" ∷ "2" ∷ "3" ∷ "4" ∷ "5" ∷ "6" ∷ "7" ∷ "8" ∷ "9" ∷ []) d ""

unfoldable pub numeral : ℕ → String
unfolding digit
numeral zero = "0"
numeral n = elim (n / 10) [
  | zero ↦ digit (n % 10)
  | suc t ↦ str_append (digit (suc t)) (digit (n % 10))
]

-- The name with a number between two texts.
unfoldable pub numbered : String → ℕ → String → String
unfolding numeral
numbered before i behind = str_append before (str_append (numeral i) behind)

-- The rounds of `for (int i = k; i < k + n; i++)`, and what they print.
unfoldable pub for_each {ℓ} : {A : Type ℓ} → ℕ → ℕ → (ℕ → List A) → List A
for_each zero k body = []
for_each (suc n) k body = body k ++ for_each n (k + 1) body
