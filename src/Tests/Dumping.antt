-- ===== src/Tests/Dumping.antt =====
-- The theorems on printed packets applied at a star tracker's packet.
use libpueorawdata.Prelude.{◌≡◌, refl, true, false, [], ◌∷◌}
use libpueorawdata.Prelude.Int.{ℤ, pos}
use libpueorawdata.Prelude.Memory.{Bytes}
use libpueorawdata.Prelude.Run.{done, Returns}
use libpueorawdata.Datatype.{startracker, of_code, struct_of}
use libpueorawdata.Dump.Print.{
  Line, tabbed, opening, item, closing, array_items, Output, start, end, key, time_of, decimal,
  shown, array,
}
use libpueorawdata.Dump.Packet.{dump_packet}
use libpueorawdata.Dump.Position.{dump_startracker}
use libpueorawdata.Layout.Access.{peek}
use libpueorawdata.Dump.Written.{Dumped, dump_packet-Dumped}
use libpueorawdata.Dump.Returns.{dump_packet-returns}

-- The times 5 s and 7 s.
abbrev stars_payload : Bytes
stars_payload = 5 ∷ 0 ∷ 0 ∷ 0 ∷ 0 ∷ 0 ∷ 0 ∷ 0 ∷ 7 ∷ 0 ∷ 0 ∷ 0 ∷ 0 ∷ 0 ∷ 0 ∷ 0 ∷ []

-- Every fprintf prints ten characters.
abbrev ten : Line → ℤ
ten l = pos 10

abbrev empty_file : Output
empty_file = record { ntabs = pos 0; file = []; terminal = []; ret = pos 0 }

printed_stars :
    dump_packet ten 0xe71c stars_payload empty_file
    ≡ done (
      pos 40,
      record {
        ntabs = pos 0;
        file =
            tabbed (pos 0) (start "startracker")
            ∷ tabbed (pos 1) (key "time1" (time_of 5 0))
            ∷ tabbed (pos 1) (key "time3" (time_of 7 0))
            ∷ tabbed (pos 0) end
            ∷ [];
        terminal = [];
        ret = pos 40;
      },
    )
unfolding dump_packet dump_startracker peek struct_of
printed_stars = refl

-- An array's elements are parted by commas.
two_elements :
    shown (array "x" (decimal (pos 3) ∷ decimal (pos 4) ∷ [])) (pos 1)
    ≡ opening (pos 1) "x"
      ∷ item (decimal (pos 3)) true
      ∷ item (decimal (pos 4)) false
      ∷ closing
      ∷ []
unfolding shown array_items
two_elements = refl

dump_packet-Dumped_example :
    Returns
      (Dumped ten startracker (peek (struct_of startracker) stars_payload) empty_file)
      (dump_packet ten 0xe71c stars_payload empty_file)
unfolding of_code
dump_packet-Dumped_example = dump_packet-Dumped ten 0xe71c startracker stars_payload empty_file refl

dump_packet-returns_example :
    (r : ℤ × Output) × (dump_packet ten 0xe71c stars_payload empty_file ≡ done r)
    × Dumped ten startracker (peek (struct_of startracker) stars_payload) empty_file r
unfolding of_code
dump_packet-returns_example =
    dump_packet-returns ten 0xe71c startracker stars_payload empty_file refl tt
