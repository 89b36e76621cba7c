-- ===== src/Dump/Print.antt =====
-- The macros of src/rawio_dump.c and what they print.
use libpueorawdata.Prelude.{
  ℕ, zero, suc, ◌+◌, ◌==◌, Bool, true, false, List, [], ◌∷◌, ◌++◌, String, map, leb, if◌then◌else◌,
}
use libpueorawdata.Prelude.Int.{ℤ, pos, negsuc, ◌+ℤ◌}
use libpueorawdata.Prelude.Memory.{Bytes}
use libpueorawdata.Prelude.Run.{Run, done, out_of_bounds, check, ◌>>=◌, ◌>>◌}
use libpueorawdata.Layout.Access.{member}
use libpueorawdata.Db.Statement.{Real, single, for_each}
use libpueorawdata.Db.Rows.Members.{Members, element, inside}

-- What a conversion prints: %u, %d, %hu and the like; hexadecimal digits behind 0x, and how many at
-- least; %f; %c; %s; %.*s; seconds, a point and nine digits of nanoseconds; "true" or "false".
pub data Printed : Type 0 where
  decimal : ℤ → Printed
  hexadecimal : ℕ → ℕ → Printed
  real : Real → Printed
  character : ℕ → Printed
  text : String → Printed
  chars : Bytes → Printed
  time_of : ℕ → ℕ → Printed
  truth : Bool → Printed

-- DUMPSTART, DUMPSTARTARR, DUMPSTARTARROBJ, DUMPENDARROBJ, DUMPEND, DUMPENDARR, DUMPKEYVAL, DUMPARRAY,
-- and a printf to the standard output, with whether a comma follows.
pub data Print : Type 0 where
  start start_array : String → Print
  start_object end_object end end_array : Print
  key : String → Printed → Print
  array : String → List Printed → Print
  console : Printed → Bool → Print

-- One call of fprintf: behind that many tabs, or behind none. The elements of an array come with
-- whether a comma follows.
pub data Line : Type 0 where
  tabbed : ℤ → Print → Line
  opening : ℤ → String → Line
  item : Printed → Bool → Line
  closing : Line

unfoldable pub array_items : List Printed → List Line
array_items [] = []
array_items (v ∷ []) = item v false ∷ []
array_items (v ∷ w ∷ vs) = item v true ∷ array_items (w ∷ vs)

-- The calls that a macro makes when `dump_ntabs` is z.
unfoldable pub shown : Print → ℤ → List Line
unfolding array_items
shown end z = tabbed (z +ℤ negsuc 0) end ∷ []
shown end_array z = tabbed (z +ℤ negsuc 0) end_array ∷ []
shown (array name vs) z = opening z name ∷ (array_items vs ++ closing ∷ [])
shown (console v comma) z = []
shown p z = tabbed z p ∷ []

-- `dump_ntabs` after it.
unfoldable pub next : Print → ℤ → ℤ
next (start what) z = z +ℤ pos 1
next (start_array what) z = z +ℤ pos 1
next start_object z = z +ℤ pos 1
next end_object z = z +ℤ negsuc 0
next end z = z +ℤ negsuc 0
next end_array z = z +ℤ negsuc 0
next p z = z

-- What is written to the standard output.
unfoldable pub on_console : Print → List (Printed × Bool)
on_console (console v comma) = (v, comma) ∷ []
on_console _ = []

-- `dump_ntabs`, what was written to the file and to the standard output, and `ret`.
pub record Output : Type 0 where
  pub ntabs : ℤ
  pub file : List Line
  pub terminal : List (Printed × Bool)
  pub ret : ℤ

-- The sum of what fprintf returns.
unfoldable pub sum_ret : (Line → ℤ) → List Line → ℤ → ℤ
sum_ret count [] r = r
sum_ret count (l ∷ ls) r = sum_ret count ls (r +ℤ count l)

unfoldable pub print_macro : (Line → ℤ) → Print → Output → Output
unfolding shown next on_console sum_ret
print_macro count p o = record {
  ntabs = next p o.ntabs;
  file = o.file ++ shown p o.ntabs;
  terminal = o.terminal ++ on_console p;
  ret = sum_ret count (shown p o.ntabs) o.ret;
}

unfoldable pub print_macros : (Line → ℤ) → List Print → Output → Output
unfolding print_macro
print_macros count [] o = o
print_macros count (p ∷ ps) o = print_macros count ps (print_macro count p o)

-- DUMPU64, DUMPU32, DUMPU16 and DUMPU8; DUMPX32, DUMPX16 and DUMPX8; DUMPFLT; DUMPBOOL; DUMPTIME.
abbrev pub unsigned_keys : Members → List String → List Print
unsigned_keys x names = map (λ name. key name (decimal (pos (x (member name ∷ []))))) names

abbrev pub hex_keys : Members → List String → List Print
hex_keys x names = map (λ name. key name (hexadecimal 1 (x (member name ∷ [])))) names

abbrev pub float_keys : Members → List String → List Print
float_keys x names = map (λ name. key name (real (single (x (member name ∷ []))))) names

abbrev pub truth_keys : Members → List String → List Print
truth_keys x names =
    map (λ name. key name (truth (if x (member name ∷ []) == 0 then false else true))) names

abbrev pub time_keys : Members → List String → List Print
time_keys x names =
    map (λ name. key name (time_of (x (inside name "utc_secs")) (x (inside name "utc_nsecs"))))
      names

-- DUMPARRAY with N elements.
unfoldable pub array_of : String → ℕ → (ℕ → Printed) → Print
unfolding for_each
array_of name n f = array name (for_each n 0 (λ i. f i ∷ []))

abbrev pub unsigned_array : Members → String → ℕ → Print
unsigned_array x name n = array_of name n (λ i. decimal (pos (x (element name i))))

abbrev pub float_array : Members → String → ℕ → Print
float_array x name n = array_of name n (λ i. real (single (x (element name i))))

-- The same with a number of elements from the packet, for an array of `limit`.
unfoldable pub counted_array : String → ℕ → ℕ → (ℕ → Printed) → Run Print
unfolding array_of
counted_array name limit n f = do check (leb n limit) out_of_bounds; done (array_of name n f)

-- A loop over the rounds k, k + 1, … whose body may end the program.
unfoldable pub for_each_run : ℕ → ℕ → (ℕ → Run (List Print)) → Run (List Print)
for_each_run zero k body = done []
for_each_run (suc n) k body = do
  here ← body k
  rest ← for_each_run n (k + 1) body
  done (here ++ rest)
