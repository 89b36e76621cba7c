-- ===== src/Db/Rows/Members.antt =====
-- The arguments that src/rawio_db.c hands to fprintf: members of a packet, converted by their types.
use libpueorawdata.Prelude.{ℕ, List, [], ◌∷◌, String, map}
use libpueorawdata.Prelude.Int.{pos}
use libpueorawdata.Layout.Access.{Place, member, at, to_signed}
use libpueorawdata.Db.Statement.{Value, timestamp, number, real, single}

-- The bits of each member of the packet.
abbrev pub Members : Type 0
Members = Place → ℕ

-- `x->name[i]`.
abbrev pub element : String → ℕ → Place
element name i = member name ∷ at i ∷ []

-- `x->outer.inner`.
abbrev pub inside : String → String → Place
inside outer inner = member outer ∷ member inner ∷ []

-- %u, %lu, and %d or %i of an unsigned member narrower than an `int`.
abbrev pub as_unsigned : Members → Place → Value
as_unsigned x p = number (pos (x p))

-- %d or %i of a 32-bit member, which is read as an `int`.
abbrev pub as_int : Members → Place → Value
as_int x p = number (to_signed 32 (x p))

-- %f of a `float`.
abbrev pub as_float : Members → Place → Value
as_float x p = real (single (x p))

-- TO_TIMESTAMP(%lu.%09u) of a `pueo_time_t`.
abbrev pub time : Members → String → Value
time x name = timestamp (x (inside name "utc_secs")) (x (inside name "utc_nsecs"))

-- One member for each name.
abbrev pub unsigned_members : Members → List String → List Value
unsigned_members x names = map (λ name. as_unsigned x (member name ∷ [])) names

abbrev pub as_int_members : Members → List String → List Value
as_int_members x names = map (λ name. as_int x (member name ∷ [])) names

abbrev pub float_members : Members → List String → List Value
float_members x names = map (λ name. as_float x (member name ∷ [])) names
