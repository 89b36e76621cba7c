-- ===== src/Dump/Written.antt =====
-- What pueo_dump_packet of src/rawio.c leaves.
use libpueorawdata.Prelude.{
  append-nil, append_assoc, ℕ, Bool, ltb, ◌≡◌, refl, ◌∙◌, sym, ap, some, List, [], ◌∷◌, ◌++◌,
}
use libpueorawdata.Prelude.Int.{ℤ, pos, ◌+ℤ◌}
use libpueorawdata.Prelude.Memory.{Bytes}
use libpueorawdata.Prelude.Run.{Run, done, fault, ◌>>=◌, Returns}
use libpueorawdata.Layout.Access.{peek}
use libpueorawdata.Datatype.{Kind, daq_hsk_summary, of_code, struct_of}
use libpueorawdata.Db.Statement.{quotient, of_int, decimal as literal, for_each}
use libpueorawdata.Db.Rows.Members.{Members, element}
use libpueorawdata.Dump.Print.{
  Printed, real, Print, Line, Output, print_macro, print_macros, shown, sum_ret, array_of,
}
use libpueorawdata.Dump.Daq.{dump_daq_hsk_summary, l2_averages, dump_surf, dump_beam}
use libpueorawdata.Dump.Packet.{dump, dump_kind, dump_packet}
use libpueorawdata.Dump.Nesting.{
  IsClosed, closed-ntabs, spoken, print_macros-terminal, closed-spoken,
}
use libpueorawdata.Dump.Closed.{prints_to_terminal, dump-IsClosed}

sum_ret-++ :
    (count : Line → ℤ) (a b : List Line) (r : ℤ)
    → sum_ret count (a ++ b) r ≡ sum_ret count b (sum_ret count a r)
unfolding sum_ret
sum_ret-++ count [] b r = refl
sum_ret-++ count (l ∷ a) b r = sum_ret-++ count a b (r +ℤ count l)

-- The lines that some macros write, and that `ret` counts.
abbrev Written : (Line → ℤ) → Output → Output → Type 0
Written count o o' =
    (lines : List Line) × (o'.file ≡ o.file ++ lines) × (o'.ret ≡ sum_ret count lines o.ret)

print_macros-Written :
    (count : Line → ℤ) (ps : List Print) (o : Output) → Written count o (print_macros count ps o)
unfolding print_macros print_macro sum_ret
print_macros-Written count [] o = ([], sym (append-nil o.file), refl)
print_macros-Written count (p ∷ ps) o =
    let (lines, f, r) = print_macros-Written count ps (print_macro count p o) in
    (
      shown p o.ntabs ++ lines,
      f ∙ append_assoc o.file (shown p o.ntabs) lines,
      r ∙ sym (sum_ret-++ count (shown p o.ntabs) lines o.ret),
    )

-- The fractions that the dump of a summary writes to the standard output.
abbrev pub averages : Kind → Members → List (Printed × Bool)
averages daq_hsk_summary x = for_each 26 0 (λ i.
    (
      real (quotient (of_int (pos (x (element "enable_mask_fraction" i)))) (literal "255.")),
      ltb i 25,
    )
    ∷ [])
averages _ x = []

-- What a dump leaves: macros whose brackets match were called; there are as many tabs as before; the
-- result is the sum of what fprintf returned for the lines that were added; nothing but the averages was
-- written to the standard output.
pub record Dumped (count : Line → ℤ) (k : Kind) (x : Members) (o : Output) (r : ℤ × Output)
    : Type 0 where
  pub calls : List Print
  pub matched : IsClosed (prints_to_terminal k) calls
  pub called : r.1 ≡ print_macros count calls (record o { ret = pos 0 })
  pub same_tabs : r.1.ntabs ≡ o.ntabs
  pub lines : List Line
  pub added : r.1.file ≡ o.file ++ lines
  pub summed : r.0 ≡ sum_ret count lines (pos 0)
  pub heard : r.1.terminal ≡ o.terminal ++ averages k x

abbrev Fine : Kind → Members → List Print → Type 0
Fine k x calls = IsClosed (prints_to_terminal k) calls × (spoken calls ≡ averages k x)

after-Dumped :
    (count : Line → ℤ) (k : Kind) (x : Members) (o : Output) (m : Run (List Print))
    → Returns (Fine k x) m
    → Returns (Dumped count k x o) (
        m >>= λ calls.
        let o' = print_macros count calls (record o { ret = pos 0 }) in done (o'.ret, o'))
after-Dumped count k x o (fault e) h = tt
after-Dumped count k x o (done calls) (closed, quiet) =
    let (lines, f, r) = print_macros-Written count calls (record o { ret = pos 0 }) in
    record {
      calls = calls;
      matched = closed;
      called = refl;
      same_tabs = closed-ntabs (prints_to_terminal k) count calls (record o { ret = pos 0 }) closed;
      lines = lines;
      added = f;
      summed = r;
      heard =
          print_macros-terminal count calls (record o { ret = pos 0 })
          ∙ ap (λ c. o.terminal ++ c) quiet;
    }

pair-Fine :
    (k : Kind) (x : Members) (m : Run (List Print))
    → Returns (IsClosed (prints_to_terminal k)) m
    → ((calls : List Print) → IsClosed (prints_to_terminal k) calls → spoken calls ≡ averages k x)
    → Returns (Fine k x) m
pair-Fine k x (done calls) closed quiet = (closed, quiet calls closed)
pair-Fine k x (fault e) closed quiet = tt

dump-Fine : (k : Kind) (x : Members) → Returns (Fine k x) (dump k x)
unfolding dump dump_daq_hsk_summary l2_averages dump_surf dump_beam spoken for_each array_of
dump-Fine daq_hsk_summary x = (dump-IsClosed daq_hsk_summary x, refl)
dump-Fine k x =
    pair-Fine k x (dump k x) (dump-IsClosed k x) (λ calls closed. closed-spoken calls closed)

-- If pueo_dump_packet comes back for a packet of a type with a row, the braces and brackets that
-- it opened were closed by their own kinds in order, dump_ntabs is what it was before, the result
-- is the sum of what fprintf returned for the lines that were added to the file, and nothing was
-- written to the standard output, but for the 26 averages of a daq_hsk_summary.
pub dump_packet-Dumped :
    (count : Line → ℤ) (type : ℕ) (k : Kind) (payload : Bytes) (o : Output)
    → of_code type ≡ some k
    → Returns (Dumped count k (peek (struct_of k) payload) o) (dump_packet count type payload o)
unfolding dump_packet dump_kind
dump_packet-Dumped count type k payload o known =
    rw (dump_packet, known)
      (after-Dumped count k (peek (struct_of k) payload) o (dump k (peek (struct_of k) payload))
        (dump-Fine k (peek (struct_of k) payload)))
