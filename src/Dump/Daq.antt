-- ===== src/Dump/Daq.antt =====
-- pueo_dump_daq_hsk and pueo_dump_daq_hsk_summary of src/rawio_dump.c.
use libpueorawdata.Prelude.{ℕ, ◌+◌, ◌*◌, ◌%◌, ◌^◌, ltb, List, [], ◌∷◌, ◌++◌, String}
use libpueorawdata.Prelude.Int.{pos}
use libpueorawdata.Geometry.{nbeams, nrealsurf, imisurf_slot}
use libpueorawdata.Layout.Access.{member, at}
use libpueorawdata.Db.Statement.{of_int, decimal as literal, quotient, for_each}
use libpueorawdata.Db.Rows.Members.{Members, element}
use libpueorawdata.Db.Rows.Daq.{sum_over}
use libpueorawdata.Dump.Print.{
  decimal, real, Print, start, end, start_array, end_array, start_object, end_object, key, console,
  unsigned_keys, time_keys, unsigned_array,
}

-- The members on the transfers and the seconds, which both packets have.
abbrev counter_keys : Members → List Print
counter_keys hsk =
    unsigned_array hsk "turfio_words_recv" 4
    ∷ unsigned_keys hsk (
        "qwords_sent" ∷ "events_sent" ∷ "trigger_count" ∷ "current_second" ∷ "last_pps"
        ∷ "llast_pps" ∷ "last_dead" ∷ "llast_dead" ∷ "panic_count" ∷ "occupancy" ∷ "ack_count"
        ∷ "latency" ∷ "offset" ∷ "pps_trig_offset" ∷ [])

-- A `uint32_t` sum.
unfoldable pub total_l2 : Members → ℕ
unfolding sum_over
total_l2 hsk = sum_over 12 0 (λ i. hsk (element "Hscalers" i) + hsk (element "Vscalers" i)) % 2 ^ 32

unfoldable pub dump_daq_hsk : Members → List Print
unfolding total_l2
dump_daq_hsk hsk =
    start "daq_hsk"
    ∷ (time_keys hsk ("scaler_readout_time" ∷ "l2_readout_time" ∷ [])
        ++ (unsigned_keys hsk ("soft_rate" ∷ "pps_rate" ∷ "l2_enable_mask" ∷ [])
            ++ (unsigned_array hsk "Hscalers" 12
                ∷ unsigned_array hsk "Vscalers" 12
                ∷ key "total_L2_rate" (decimal (pos (total_l2 hsk)))
                ∷ (counter_keys hsk ++ (end ∷ [])))))

abbrev beam_member : Members → ℕ → ℕ → String → ℕ
beam_member hsk i j name = hsk (member "surf" ∷ at i ∷ member "beams" ∷ at j ∷ member name ∷ [])

unfoldable pub dump_beam : Members → ℕ → ℕ → List Print
dump_beam hsk i j =
    start_object
    ∷ key "threshold_average" (decimal (pos (beam_member hsk i j "thresh_avg")))
    ∷ key "scaler_average" (decimal (pos (beam_member hsk i j "scaler_avg")))
    ∷ key "scaler_rms" (decimal (pos (16 * beam_member hsk i j "scaler_rms_div_16")))
    ∷ end_object
    ∷ []

-- The link is printed as the slot, and both of the main instrument's numbering.
unfoldable pub dump_surf : Members → ℕ → List Print
unfolding dump_beam for_each
dump_surf hsk i =
    start_object
    ∷ key "MI_surf_idx" (decimal (pos i))
    ∷ key "surf_link" (decimal (pos (imisurf_slot i)))
    ∷ key "surf_slot" (decimal (pos (imisurf_slot i)))
    ∷ start_array "beams"
    ∷ (for_each nbeams 0 (λ j. dump_beam hsk i j) ++ (end_array ∷ end_object ∷ []))

-- These go to the standard output, whatever the file.
unfoldable pub l2_averages : Members → List Print
unfolding for_each
l2_averages hsk = for_each 26 0 (λ i.
    console
      (real (quotient (of_int (pos (hsk (element "enable_mask_fraction" i)))) (literal "255.")))
      (ltb i 25)
    ∷ [])

unfoldable pub dump_daq_hsk_summary : Members → List Print
unfolding dump_surf l2_averages for_each
dump_daq_hsk_summary hsk =
    start "daq_hsk"
    ∷ (unsigned_keys hsk (
          "start_second" ∷ "end_second" ∷ "global_total_avg" ∷ "global_total_min"
          ∷ "global_total_max" ∷ "global_total_rms" ∷ "MIE_total_H_avg" ∷ "MIE_total_V_avg"
          ∷ "aux_total_avg" ∷ "pps_rate" ∷ [])
        ++ (unsigned_array hsk "Hscalers_avg" 12
            ∷ unsigned_array hsk "Vscalers_avg" 12
            ∷ start_array "surfs"
            ∷ (for_each nrealsurf 0 (λ i. dump_surf hsk i)
                ++ (end_array
                    ∷ start_array "L2_averages"
                    ∷ (l2_averages hsk ++ (end_array ∷ (counter_keys hsk ++ (end ∷ []))))))))
