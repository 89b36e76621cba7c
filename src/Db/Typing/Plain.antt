-- ===== src/Db/Typing/Plain.antt =====
-- Whether the values that src/rawio_db.c prints are values of SQL. Texts are for a database whose
-- encoding takes every byte.
use Prim.Native.Char.{code}
use Prim.Native.String.{String}
use libpueorawdata.Prelude.{ℕ, ◌%◌, ◌^◌, ltb, ◌==◌, Bool, true, false, ◌&&◌, not, List, [], ◌∷◌}
use libpueorawdata.Prelude.Int.{ℤ, pos, negsuc}
use libpueorawdata.Prelude.Memory.{Bytes}
use libpueorawdata.Db.Statement.{
  Engine, pgsql, sqlite, Value, number, real, character, bytes, quoted, low_character, low_int,
  Real, single, half, low_word, of_int, decimal, quotient, product, difference, root, Statement,
  insert_into, yikes,
}
use libpueorawdata.Db.Typing.{all_typed}

-- What a `float` or a `float16` is when its exponent is not the largest one: neither infinite nor NaN.
abbrev finite_half : ℕ → Bool
finite_half bits = ltb (bits % 0x8000) 0x7c00

abbrev finite_single : ℕ → Bool
finite_single bits = ltb (bits % 2 ^ 31) 0x7f800000

-- Whether an expression is another number than 0; no literal of the code is 0.
abbrev nonzero : Real → Bool
nonzero (of_int (pos n)) = not (n == 0)
nonzero (of_int (negsuc n)) = true
nonzero (decimal s) = true
nonzero r = false

-- INTEGER has 32 bits, and 64 for sqlite.
abbrev in_range : Engine → ℤ → Bool
in_range sqlite (pos n) = ltb n (2 ^ 63)
in_range sqlite (negsuc n) = ltb n (2 ^ 63)
in_range e (pos n) = ltb n (2 ^ 31)
in_range e (negsuc n) = ltb n (2 ^ 31)

-- Whether %f prints digits, of a number that can be rounded to an INTEGER when the expression has its
-- integers of 32 bits. The one root is that of a variance.
unfoldable pub finite : Real → Bool
finite (single bits) = finite_single bits
finite (half bits) = finite_half bits
finite (low_word bits) = false
finite (of_int z) = in_range pgsql z
finite (decimal s) = true
finite (quotient a b) = finite a && finite b && nonzero b
finite (product a b) = finite a && finite b
finite (difference a b) = finite a && finite b
finite (root a) = finite a

-- A quote ends the text that it stands in.
abbrev pub no_quote : Bytes → Bool
no_quote [] = true
no_quote (c ∷ cs) = not (c == 39) && no_quote cs

unfoldable pub unquoted : String → Bool
unquoted String.[] = true
unquoted (String.◌∷◌ c s) = not (code c == 39) && unquoted s

unfoldable pub plain : Engine → Value → Bool
unfolding finite unquoted
plain e (number z) = in_range e z
plain e (real r) = finite r
plain e (character c) = not (c == 39) && not (c == 0)
plain e (bytes s) = no_quote s
plain e (quoted s) = unquoted s
plain e (low_character r) = false
plain e (low_int r) = false
plain e v = true

abbrev pub values_plain : Engine → List Value → Bool
values_plain e [] = true
values_plain e (v ∷ vs) = plain e v && values_plain e vs

unfoldable pub statement_plain : Engine → Statement → Bool
unfolding plain
statement_plain e (insert_into t ns vs) = values_plain e vs
statement_plain e (yikes v) = plain e v
statement_plain e s = true

unfoldable pub all_plain : Engine → List Statement → Bool
unfolding statement_plain
all_plain e [] = true
all_plain e (s ∷ ss) = statement_plain e s && all_plain e ss

-- Statements whose values are of the types of their columns and are values of SQL.
unfoldable pub all_fit : Engine → List Statement → List Statement → Bool
unfolding all_typed all_plain
all_fit e created written = all_typed e created written && all_plain e written
