-- ===== src/Dump/Closed.antt =====
-- The dumps of src/rawio_dump.c close what they open.
use libpueorawdata.Prelude.{
  Bool, true, false, ℕ, ◌+◌, ltb, String, refl, Bool-cases, inl, inr, ◌==◌, leb, List, [], ◌∷◌,
  ◌++◌,
}
use libpueorawdata.Prelude.Run.{check, out_of_bounds, Returns, >>=-Returns, Returns-any}
use libpueorawdata.Geometry.{max_buffer_length, nchan}
use libpueorawdata.Formats.Base.{
  max_sensors_per_packet_telem, max_sensors_per_packet_disk, max_file_download_length,
}
use libpueorawdata.Layout.Access.{Place, member, at}
use libpueorawdata.Datatype.{
  Kind, full_waveforms, single_waveform, nav_att, nav_sat, nav_pos, sensors_telem, sensors_disk,
  slow, cmd_echo, ss, timemark, startracker, logs, daq_hsk, daq_hsk_summary, file_download,
  saved_priorities, prio_status,
}
use libpueorawdata.Db.Statement.{for_each}
use libpueorawdata.Db.Rows.Members.{Members}
use libpueorawdata.Db.Rows.Telemetry.{text_at, reading}
use libpueorawdata.Sensors.{sensor_id_get_compat}
use libpueorawdata.Dump.Print.{end, Print, Printed, counted_array, array_of, for_each_run}
use libpueorawdata.Dump.Event.{
  sample_value, dump_waveform, dump_full_waveforms, dump_single_waveform, dump_saved_priorities,
}
use libpueorawdata.Dump.Readings.{
  decoded_keys, dump_sensor_telem, dump_sensor_disk, dump_sensors_telem, dump_sensors_disk,
}
use libpueorawdata.Dump.Position.{
  dump_nav_att, dump_nav_pos, dump_sat, dump_nav_sat, dump_startracker, dump_timemark,
}
use libpueorawdata.Dump.Status.{
  hex_byte, dump_slow, dump_ss, dump_cmd_echo, dump_logs, dump_contents, dump_file_download,
  dump_prio_status,
}
use libpueorawdata.Dump.Daq.{dump_daq_hsk, dump_daq_hsk_summary}
use libpueorawdata.Dump.Packet.{dump}
use libpueorawdata.Dump.Nesting.{
  object, list, IsInline, pass_closed, pass_inline, nest, IsClosed, for_each-IsClosed,
  for_each_run-IsClosed,
}

abbrev Any {ℓ} : {A : Type ℓ} → A → Type 0
Any _ = Unit {0}

counted_array-IsInline :
    (b : Bool) (name : String) (limit n : ℕ) (f : ℕ → Printed)
    → Returns (IsInline b) (counted_array name limit n f)
unfolding counted_array array_of nest
counted_array-IsInline b name limit n f =
    >>=-Returns Any (IsInline b) (check (leb n limit) out_of_bounds) _ (Returns-any _)
      (λ _ _ s. refl)

waveform-IsClosed :
    (b : Bool) (x : Members) (wf : Place) → Returns (IsClosed b) (dump_waveform x wf)
unfolding dump_waveform nest
waveform-IsClosed b x wf =
    let n = x (wf ++ member "length" ∷ []) in
    >>=-Returns (IsInline b) (IsClosed b)
      (counted_array "data" max_buffer_length n (sample_value x wf)) _
      (counted_array-IsInline b "data" max_buffer_length n (sample_value x wf))
      (λ data_array h s. pass_inline b data_array (end ∷ []) (object ∷ s) s h refl)

full_waveforms-IsClosed : (b : Bool) (x : Members) → Returns (IsClosed b) (dump_full_waveforms x)
unfolding dump_full_waveforms nest
full_waveforms-IsClosed b x =
    >>=-Returns (IsClosed b) (IsClosed b)
      (for_each_run nchan 0 (λ i. dump_waveform x (member "wfs" ∷ at i ∷ []))) _
      (for_each_run-IsClosed b nchan 0 _ (λ i. waveform-IsClosed b x (member "wfs" ∷ at i ∷ [])))
      (λ wfs closed s. pass_closed b wfs _ (object ∷ s) s closed refl)

single_waveform-IsClosed : (b : Bool) (x : Members) → Returns (IsClosed b) (dump_single_waveform x)
unfolding dump_single_waveform nest
single_waveform-IsClosed b x =
    >>=-Returns (IsClosed b) (IsClosed b) (dump_waveform x (member "wf" ∷ [])) _
      (waveform-IsClosed b x (member "wf" ∷ []))
      (λ wf closed s. pass_closed b wf _ (object ∷ s) s closed refl)

abbrev Keys : Bool → List Print × ℕ → Type 0
Keys b d = IsClosed b d.0

decoded_keys-IsClosed : (b : Bool) (x : Members) (i : ℕ) → Returns (Keys b) (decoded_keys x i)
unfolding decoded_keys nest
decoded_keys-IsClosed b x i =
    let id = x (reading i "sensor_id") in
    let magic = x (member "sensor_id_magic" ∷ []) in
    >>=-Returns Any (Keys b) (sensor_id_get_compat (λ s. s.subsystem) id magic) _ (Returns-any _)
      (λ _ _.
        >>=-Returns Any (Keys b) (sensor_id_get_compat (λ s. s.name) id magic) _ (Returns-any _)
          (λ _ _.
            >>=-Returns Any (Keys b) (sensor_id_get_compat (λ s. s.type_tag) id magic) _
              (Returns-any _)
              (λ _ _.
                >>=-Returns Any (Keys b) (sensor_id_get_compat (λ s. s.kind) id magic) _
                  (Returns-any _) (λ _ _ s. refl))))

sensor_telem-IsClosed :
    (b : Bool) (x : Members) (i : ℕ) → Returns (IsClosed b) (dump_sensor_telem x i)
unfolding dump_sensor_telem nest
sensor_telem-IsClosed b x i =
    >>=-Returns Any (IsClosed b) (check (ltb i max_sensors_per_packet_telem) out_of_bounds) _
      (Returns-any _)
      (λ _ _.
        >>=-Returns (Keys b) (IsClosed b) (decoded_keys x i) _ (decoded_keys-IsClosed b x i)
          (λ d closed s. pass_closed b d.0 _ (object ∷ s) s closed refl))

sensor_disk-IsClosed :
    (b : Bool) (x : Members) (i : ℕ) → Returns (IsClosed b) (dump_sensor_disk x i)
unfolding dump_sensor_disk nest
sensor_disk-IsClosed b x i =
    >>=-Returns Any (IsClosed b) (check (ltb i max_sensors_per_packet_disk) out_of_bounds) _
      (Returns-any _)
      (λ _ _.
        >>=-Returns (Keys b) (IsClosed b) (decoded_keys x i) _ (decoded_keys-IsClosed b x i)
          (λ d closed s. pass_closed b d.0 _ (object ∷ s) s closed refl))

sensors_telem-IsClosed : (b : Bool) (x : Members) → Returns (IsClosed b) (dump_sensors_telem x)
unfolding dump_sensors_telem nest
sensors_telem-IsClosed b x =
    let n = x (member "num_packets" ∷ []) in
    >>=-Returns (IsClosed b) (IsClosed b) (for_each_run n 0 (λ i. dump_sensor_telem x i)) _
      (for_each_run-IsClosed b n 0 _ (sensor_telem-IsClosed b x))
      (λ sensors closed s. pass_closed b sensors _ (list ∷ object ∷ s) s closed refl)

sensors_disk-IsClosed : (b : Bool) (x : Members) → Returns (IsClosed b) (dump_sensors_disk x)
unfolding dump_sensors_disk nest
sensors_disk-IsClosed b x =
    let n = x (member "num_packets" ∷ []) in
    >>=-Returns (IsClosed b) (IsClosed b) (for_each_run n 0 (λ i. dump_sensor_disk x i)) _
      (for_each_run-IsClosed b n 0 _ (sensor_disk-IsClosed b x))
      (λ sensors closed s. pass_closed b sensors _ (list ∷ object ∷ s) s closed refl)

sat-IsClosed : (b : Bool) (x : Members) (i : ℕ) → (IsClosed b) (dump_sat x i)
unfolding dump_sat nest
sat-IsClosed b x i s = refl

nav_sat-IsClosed : (b : Bool) (x : Members) → Returns (IsClosed b) (dump_nav_sat x)
unfolding dump_nav_sat nest
nav_sat-IsClosed b x =
    let n = x (member "nsats_visible" ∷ []) in
    >>=-Returns Any (IsClosed b) (check (leb n 255) out_of_bounds) _ (Returns-any _) (λ _ _ s.
      pass_closed b (for_each n 0 (λ i. dump_sat x i)) _ (list ∷ object ∷ s) s
        (for_each-IsClosed b n 0 (λ i. dump_sat x i) (sat-IsClosed b x)) refl)

ss-IsClosed : (b : Bool) (x : Members) → (IsClosed b) (dump_ss x)
unfolding dump_ss nest
ss-IsClosed b x s = refl

daq_hsk_summary-IsClosed : (x : Members) → IsClosed true (dump_daq_hsk_summary x)
unfolding dump_daq_hsk_summary nest array_of
daq_hsk_summary-IsClosed x s = refl

cmd_echo-IsClosed : (b : Bool) (x : Members) → Returns (IsClosed b) (dump_cmd_echo x)
unfolding dump_cmd_echo nest
cmd_echo-IsClosed b x =
    let len = x (member "len_m1" ∷ []) + 1 in
    >>=-Returns (IsInline b) (IsClosed b) (counted_array "data" 256 len (hex_byte x "data" 2)) _
      (counted_array-IsInline b "data" 256 len (hex_byte x "data" 2))
      (λ data_array h s. pass_inline b data_array (end ∷ []) (object ∷ s) s h refl)

logs-IsClosed : (b : Bool) (x : Members) → Returns (IsClosed b) (dump_logs x)
unfolding dump_logs nest
logs-IsClosed b x =
    let daemon_len = x (member "daemon_len" ∷ []) in
    let grep_len = x (member "grep_len" ∷ []) in
    let msg_len = x (member "msg_len" ∷ []) in
    >>=-Returns Any (IsClosed b) (text_at x "buf" 2048 daemon_len 0) _ (Returns-any _) (λ _ _.
      >>=-Returns Any (IsClosed b) (text_at x "buf" 2048 grep_len daemon_len) _ (Returns-any _)
        (λ _ _.
          >>=-Returns Any (IsClosed b) (text_at x "buf" 2048 msg_len (daemon_len + grep_len)) _
            (Returns-any _) (λ _ _ s. refl)))

contents-IsInline : (b : Bool) (x : Members) → Returns (IsInline b) (dump_contents x)
unfolding dump_contents nest
contents-IsInline b x =
    let len = x (member "len" ∷ []) in
    elim (Bool-cases (x (member "binary" ∷ []) == 0)) [
      | inl as_text ↦
          rw (dump_contents, as_text)
            (>>=-Returns Any (IsInline b) (text_at x "bytes" max_file_download_length len 0) _
              (Returns-any _) (λ _ _ s. refl))
      | inr binary ↦
          rw (dump_contents, binary)
            (counted_array-IsInline b "bytes" max_file_download_length len (hex_byte x "bytes" 1))
    ]

file_download-IsClosed : (b : Bool) (x : Members) → Returns (IsClosed b) (dump_file_download x)
unfolding dump_file_download nest
file_download-IsClosed b x =
    >>=-Returns Any (IsClosed b) (text_at x "fname" 30 30 0) _ (Returns-any _) (λ _ _.
      >>=-Returns (IsInline b) (IsClosed b) (dump_contents x) _ (contents-IsInline b x)
        (λ contents h s. pass_inline b contents (end ∷ []) (object ∷ s) s h refl))

-- The one type whose dump writes to the standard output as well.
abbrev pub prints_to_terminal : Kind → Bool
prints_to_terminal daq_hsk_summary = true
prints_to_terminal _ = false

-- Whatever the members.
pub dump-IsClosed : (k : Kind) (x : Members) → Returns (IsClosed (prints_to_terminal k)) (dump k x)
unfolding dump nest array_of dump_nav_att dump_nav_pos dump_slow dump_timemark dump_startracker
    dump_daq_hsk dump_saved_priorities dump_prio_status
dump-IsClosed full_waveforms x = full_waveforms-IsClosed false x
dump-IsClosed single_waveform x = single_waveform-IsClosed false x
dump-IsClosed nav_sat x = nav_sat-IsClosed false x
dump-IsClosed sensors_telem x = sensors_telem-IsClosed false x
dump-IsClosed sensors_disk x = sensors_disk-IsClosed false x
dump-IsClosed cmd_echo x = cmd_echo-IsClosed false x
dump-IsClosed ss x = ss-IsClosed false x
dump-IsClosed logs x = logs-IsClosed false x
dump-IsClosed daq_hsk_summary x = daq_hsk_summary-IsClosed x
dump-IsClosed file_download x = file_download-IsClosed false x
dump-IsClosed nav_att x = λ s. refl
dump-IsClosed nav_pos x = λ s. refl
dump-IsClosed slow x = λ s. refl
dump-IsClosed timemark x = λ s. refl
dump-IsClosed startracker x = λ s. refl
dump-IsClosed daq_hsk x = λ s. refl
dump-IsClosed saved_priorities x = λ s. refl
dump-IsClosed prio_status x = λ s. refl
