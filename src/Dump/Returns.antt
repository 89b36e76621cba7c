-- ===== src/Dump/Returns.antt =====
-- When pueo_dump_packet of src/rawio.c comes back.
use libpueorawdata.Prelude.{ℕ, ◌+◌, ◌≡◌, refl, some, [], ◌∷◌, leb, le→leb, subst, arith}
use libpueorawdata.Prelude.Int.{ℤ}
use libpueorawdata.Prelude.Memory.{Bytes}
use libpueorawdata.Prelude.Run.{out_of_bounds, done, check, Returns}
use libpueorawdata.Geometry.{nchan}
use libpueorawdata.Layout.Access.{member, at, peek}
use libpueorawdata.Datatype.{
  Kind, full_waveforms, single_waveform, nav_sat, sensors_telem, sensors_disk, cmd_echo, logs,
  file_download, of_code, struct_of,
}
use libpueorawdata.Db.Rows.Members.{Members}
use libpueorawdata.Db.Rows.Telemetry.{text_at}
use libpueorawdata.Db.Log.Returns.{text_at-returns}
use libpueorawdata.Dump.Print.{Line, Output, counted_array, for_each_run}
use libpueorawdata.Dump.Event.{dump_waveform, dump_full_waveforms, dump_single_waveform}
use libpueorawdata.Dump.Position.{dump_nav_sat}
use libpueorawdata.Dump.Status.{hex_byte, dump_cmd_echo, dump_contents, dump_file_download}
use libpueorawdata.Dump.Packet.{dump, dump_kind, dump_packet}
use libpueorawdata.Dump.Written.{Dumped, dump_packet-Dumped}
use libpueorawdata.Dump.Ends.{
  IsDumpable, Ends, bind-Ends, check-Ends, for_each_run-Ends, counted_array-Ends, waveform-Ends,
  sensors_telem-Ends, sensors_disk-Ends, logs-Ends, contents-Ends,
}

dump-Ends : (k : Kind) (x : Members) → IsDumpable k x → Ends (dump k x)
unfolding dump dump_full_waveforms dump_single_waveform dump_nav_sat dump_cmd_echo
    dump_file_download
dump-Ends full_waveforms x h =
    bind-Ends (for_each_run nchan 0 (λ i. dump_waveform x (member "wfs" ∷ at i ∷ []))) _
      (for_each_run-Ends nchan 0 (λ i. dump_waveform x (member "wfs" ∷ at i ∷ []))
        (λ i l. waveform-Ends x (member "wfs" ∷ at i ∷ []) (h i l)))
      (λ _. (_, refl))
dump-Ends single_waveform x h =
    bind-Ends (dump_waveform x (member "wf" ∷ [])) _ (waveform-Ends x (member "wf" ∷ []) h)
      (λ _. (_, refl))
dump-Ends nav_sat x h =
    bind-Ends (check (leb (x (member "nsats_visible" ∷ [])) 255) out_of_bounds) _
      (check-Ends _ _ (le→leb _ 255 h)) (λ _. (_, refl))
dump-Ends sensors_telem x h = sensors_telem-Ends x h
dump-Ends sensors_disk x h = sensors_disk-Ends x h
dump-Ends cmd_echo x h =
    let len = x (member "len_m1" ∷ []) + 1 in
    bind-Ends (counted_array "data" 256 len (hex_byte x "data" 2)) _
      (counted_array-Ends "data" 256 len (hex_byte x "data" 2) (omega arith)) (λ _. (_, refl))
dump-Ends logs x h = logs-Ends x h
dump-Ends file_download x h =
    bind-Ends (text_at x "fname" 30 30 0) _ (text_at-returns x "fname" 30 30 0 (omega arith))
      (λ _. bind-Ends (dump_contents x) _ (contents-Ends x h) (λ _. (_, refl)))
dump-Ends k x h = (_, refl)

kind-Ends :
    (count : Line → ℤ) (k : Kind) (x : Members) (o : Output)
    → IsDumpable k x
    → Ends (dump_kind count k x o)
unfolding dump_kind
kind-Ends count k x o h = bind-Ends (dump k x) _ (dump-Ends k x h) (λ _. (_, refl))

-- pueo_dump_packet comes back, with what is stated for it then, for every packet of a type with a
-- row that can be printed. Every packet can be of most types; waveforms have to be of at most 1024
-- samples, the visible satellites 255, the readings 256 with ids of their magic number's table, an
-- echo 256 bytes, the texts of logs in the buffer, and a file download at most 65000 bytes.
pub dump_packet-returns :
    (count : Line → ℤ) (type : ℕ) (k : Kind) (payload : Bytes) (o : Output)
    → of_code type ≡ some k
    → IsDumpable k (peek (struct_of k) payload)
    → (r : ℤ × Output) × (dump_packet count type payload o ≡ done r)
      × Dumped count k (peek (struct_of k) payload) o r
unfolding dump_packet
dump_packet-returns count type k payload o known h =
    let (r, e) = kind-Ends count k (peek (struct_of k) payload) o h in
    let returned : dump_packet count type payload o ≡ done r = rw (dump_packet, known) e in
    (
      r,
      returned,
      subst (Returns (Dumped count k (peek (struct_of k) payload) o)) returned
          (dump_packet-Dumped count type k payload o known),
    )
