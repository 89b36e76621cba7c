-- ===== src/Dump/Event.antt =====
-- pueo_dump_single_waveform, _full_waveforms and _saved_priorities of src/rawio_dump.c.
use libpueorawdata.Prelude.{ℕ, List, [], ◌∷◌, ◌++◌, String, false, true, ◌==◌, if◌then◌else◌}
use libpueorawdata.Prelude.Int.{pos}
use libpueorawdata.Prelude.Run.{Run, done, ◌>>=◌}
use libpueorawdata.Geometry.{nchan, max_buffer_length}
use libpueorawdata.Layout.Access.{Place, member, at, to_signed}
use libpueorawdata.Db.Rows.Members.{Members, inside}
use libpueorawdata.Dump.Print.{
  Printed, decimal, hexadecimal, truth, Print, start, end, key, unsigned_keys, hex_keys, truth_keys,
  time_keys, counted_array, for_each_run,
}

abbrev pub sample_value : Members → Place → ℕ → Printed
sample_value x wf i = decimal (to_signed 16 (x (wf ++ member "data" ∷ at i ∷ [])))

-- `wf` is the waveform at that place.
unfoldable pub dump_waveform : Members → Place → Run (List Print)
unfolding counted_array
dump_waveform x wf = do
  let length = x (wf ++ member "length" ∷ [])
  data_array ← counted_array "data" max_buffer_length length (sample_value x wf)
  done (
      start "waveform"
      ∷ key "channel_id" (decimal (pos (x (wf ++ member "channel_id" ∷ []))))
      ∷ key "surf_word" (hexadecimal 1 (x (wf ++ member "surf_word" ∷ [])))
      ∷ key "length" (decimal (pos length))
      ∷ data_array
      ∷ end
      ∷ [])

abbrev event_keys : Members → List Print
event_keys x =
    unsigned_keys x
      ("run" ∷ "event" ∷ "event_second" ∷ "event_time" ∷ "last_pps" ∷ "llast_pps" ∷ [])

abbrev trigger_keys : Members → List Print
trigger_keys x =
    hex_keys x (
      "deadtime_counter" ∷ "deadtime_counter_last_pps" ∷ "deadtime_counter_llast_pps" ∷ "L2_mask"
      ∷ [])
    ++ truth_keys x ("soft_trigger" ∷ "pps_trigger" ∷ "ext_trigger" ∷ [])

unfoldable pub dump_single_waveform : Members → Run (List Print)
unfolding dump_waveform
dump_single_waveform x = do
  wf ← dump_waveform x (member "wf" ∷ [])
  done (
      start "single_waveform"
      ∷ (event_keys x
          ++ (trigger_keys x ++ (time_keys x ("readout_time" ∷ []) ++ (wf ++ end ∷ [])))))

unfoldable pub dump_full_waveforms : Members → Run (List Print)
unfolding dump_waveform for_each_run
dump_full_waveforms x = do
  wfs ← for_each_run nchan 0 (λ i. dump_waveform x (member "wfs" ∷ at i ∷ []))
  done (
      start "full_waveform"
      ∷ (event_keys x
          ++ (time_keys x ("readout_time" ∷ []) ++ (trigger_keys x ++ (wfs ++ end ∷ [])))))

-- The flags and numbers are those of the member `prio`, with its name before theirs.
unfoldable pub dump_saved_priorities : Members → List Print
dump_saved_priorities p =
    start "saved_priorities"
    ∷ (unsigned_keys p ("run" ∷ "event" ∷ [])
        ++ flag "prio.topring_blast_flag" "topring_blast_flag"
          ∷ flag "prio.botring_blast_flag" "botring_blast_flag"
          ∷ flag "prio.fullpayload_blast_flag" "fullpayload_blast_flag"
          ∷ flag "prio.frontback_blast_flag" "frontback_blast_flag"
          ∷ key "prio.anthro_base_flag" (hexadecimal 1 (p (inside "prio" "anthro_base_flag")))
          ∷ key "prio.cal_type" (decimal (pos (p (inside "prio" "cal_type"))))
          ∷ key "prio.signal_level" (decimal (pos (p (inside "prio" "signal_level"))))
          ∷ end
          ∷ [])
  where
    flag : String → String → Print
    flag name m = key name (truth (if p (inside "prio" m) == 0 then false else true))
