-- ===== src/Db/Rows/Daq.antt =====
-- DAQ housekeeping: pueo_db_insert_daq_hsk and pueo_db_insert_daq_hsk_summary of src/rawio_db.c.
pub mod Beams
use libpueorawdata.Prelude.{
  ℕ, zero, suc, ◌+◌, ◌-◌, ◌%◌, ◌^◌, ltb, if◌then◌else◌, List, [], ◌∷◌, ◌++◌, String, map,
}
use libpueorawdata.Prelude.Int.{pos}
use libpueorawdata.Geometry.{nbeams, nrealsurf}
use libpueorawdata.Layout.Access.{Place, member, at, to_signed}
use libpueorawdata.Db.Statement.{
  Value, seconds, number, real, Real, of_int, quotient, Statement, insert_into, for_each, numbered,
}
use libpueorawdata.Db.Rows.Members.{
  Members, element, as_unsigned, as_int, time, unsigned_members, as_int_members,
}

-- The columns on the transfers and the seconds, which both tables have.
abbrev pub counter_columns : List String
counter_columns =
    "qwords_sent" ∷ "events_sent" ∷ "trigger_count" ∷ "current_second" ∷ "last_pps" ∷ "llast_pps"
    ∷ "last_dead" ∷ "llast_dead" ∷ "panic_count" ∷ "occupancy" ∷ "ack_count" ∷ "latency"
    ∷ "trig_offset" ∷ "pps_trig_offset" ∷ []

abbrev pub counter_values : Members → List Value
counter_values hsk =
    as_int_members hsk (
      "qwords_sent" ∷ "events_sent" ∷ "trigger_count" ∷ "current_second" ∷ "last_pps" ∷ "llast_pps"
      ∷ "last_dead" ∷ "llast_dead" ∷ "panic_count" ∷ "occupancy" ∷ [])
    ++ unsigned_members hsk ("ack_count" ∷ "latency" ∷ "offset" ∷ "pps_trig_offset" ∷ [])

unfoldable pub words_columns : List String
unfolding for_each numbered
words_columns = for_each 4 0 (λ j. numbered "turfio_words_recv_" j "" ∷ [])

unfoldable pub words_values : Members → List Value
unfolding for_each
words_values hsk = for_each 4 0 (λ j. as_int hsk (element "turfio_words_recv" j) ∷ [])

-- turfio%i_surf%i_L1rate for i below 4 and j below 7.
unfoldable pub l1_columns : List String
unfolding for_each numbered
l1_columns =
    for_each 4 0 (λ i. for_each 7 0 (λ j. numbered (numbered "turfio" i "_surf") j "_L1rate" ∷ []))

abbrev pub rate_columns : List String
rate_columns =
    "L2_rateH" ∷ "L2_rateV" ∷ "soft_rate" ∷ "pps_rate" ∷ "ext_rate" ∷ "MIE_total_H" ∷ "MIE_total_V"
    ∷ "LF_total_H" ∷ "LF_total_V" ∷ "aux_total" ∷ "global_total" ∷ "l2_enable_mask" ∷ []

unfoldable pub daq_hsk_columns : List String
unfolding l1_columns words_columns
daq_hsk_columns = "time" ∷ (l1_columns ++ (rate_columns ++ (words_columns ++ counter_columns)))

-- A sum over the rounds k, k + 1, … of a loop.
unfoldable pub sum_over : ℕ → ℕ → (ℕ → ℕ) → ℕ
sum_over zero k f = 0
sum_over (suc n) k f = f k + sum_over n (k + 1) f

-- The twelve scalers summed as `int`s, which wrap on the machine.
unfoldable pub sum_l2 : Members → String → Value
unfolding sum_over
sum_l2 hsk name = number (to_signed 32 (sum_over 12 0 (λ i. hsk (element name i)) % 2 ^ 32))

unfoldable pub daq_hsk_values : Members → List Value
unfolding for_each sum_l2 words_values
daq_hsk_values hsk =
    time hsk "scaler_readout_time"
    ∷ (for_each 4 0
          (λ i. for_each 7 0 (λ j. as_int hsk (member "turfio_L1_rate" ∷ at i ∷ at j ∷ []) ∷ []))
        ++ (sum_l2 hsk "Hscalers"
            ∷ sum_l2 hsk "Vscalers"
            ∷ (as_int_members hsk ("soft_rate" ∷ "pps_rate" ∷ "ext_rate" ∷ [])
                ++ (unsigned_members hsk (
                      "MIE_total_H" ∷ "MIE_total_V" ∷ "LF_total_H" ∷ "LF_total_V" ∷ "aux_total"
                      ∷ "global_total" ∷ [])
                    ++ (as_int hsk (member "l2_enable_mask" ∷ [])
                        ∷ (words_values hsk ++ counter_values hsk))))))

unfoldable pub daq_hsk_row : Members → Statement
unfolding daq_hsk_columns daq_hsk_values
daq_hsk_row hsk = insert_into "daq_hsks" daq_hsk_columns (daq_hsk_values hsk)

-- The seven columns of surf i.
unfoldable pub surf_columns : ℕ → List String
unfolding numbered
surf_columns i =
    map (λ behind. numbered "surf" i behind)
      ("_thresh_avg_beamavg" ∷ "_scaler_avg_beamavg" ∷ "_scaler_rms_div_16_beamavg"
        ∷ "_max_thresh_avg" ∷ "_threshold_avg_beamMaxIndex" ∷ "_scaler_avg_forMaxBeam"
        ∷ "_scaler_rms_div_16_forMaxBeam" ∷ [])

abbrev pub total_columns : List String
total_columns =
    "MIE_total_H_avg" ∷ "MIE_total_V_avg" ∷ "aux_total_avg" ∷ "pps_rate" ∷ "global_total_avg"
    ∷ "global_total_min" ∷ "global_total_max" ∷ "global_total_rms" ∷ "start_second" ∷ "duration"
    ∷ []

unfoldable pub daq_hsk_summary_columns : List String
unfolding for_each numbered surf_columns words_columns
daq_hsk_summary_columns =
    "time"
    ∷ (for_each nrealsurf 0 surf_columns
        ++ (for_each 12 0 (λ j. numbered "L2_H" j "_scaler_avg" ∷ [])
            ++ (for_each 12 0 (λ j. numbered "L2_V" j "_scaler_avg" ∷ [])
                ++ (total_columns
                    ++ (for_each 26 0 (λ j. numbered "enable_mask_fraction_" j "" ∷ [])
                        ++ (words_columns ++ counter_columns))))))

-- The loop over the beams: rounds left, the round, the largest threshold so far and its beam.
unfoldable pub max_beam : (ℕ → ℕ) → ℕ → ℕ → ℕ → ℕ → ℕ
max_beam f zero j max max_index = max_index
max_beam f (suc n) j max max_index =
    max_beam f n (j + 1) (if ltb max (f j) then f j else max)
      (if ltb max (f j) then j else max_index)

unfoldable pub max_index : (ℕ → ℕ) → ℕ
unfolding max_beam
max_index f = let found = max_beam f nbeams 0 0 0 in if ltb nbeams found then 0 else found

abbrev pub beam : ℕ → String → ℕ → Place
beam i name j = member "surf" ∷ at i ∷ member "beams" ∷ at j ∷ member name ∷ []

abbrev average : Members → ℕ → String → Value
average hsk i name =
    real
      (quotient (of_int (pos (sum_over nbeams 0 (λ j. hsk (beam i name j))))) (of_int (pos nbeams)))

unfoldable pub surf_values : Members → ℕ → List Value
unfolding sum_over max_index
surf_values hsk i =
    let top = max_index (λ j. hsk (beam i "thresh_avg" j)) in
    average hsk i "thresh_avg"
    ∷ average hsk i "scaler_avg"
    ∷ average hsk i "scaler_rms_div_16"
    ∷ as_unsigned hsk (beam i "thresh_avg" top)
    ∷ number (pos top)
    ∷ as_unsigned hsk (beam i "scaler_avg" top)
    ∷ as_unsigned hsk (beam i "scaler_rms_div_16" top)
    ∷ []

-- The difference of two `int`s, which wraps on the machine.
abbrev duration : Members → Value
duration hsk = number (
    to_signed 32
      ((hsk (member "end_second" ∷ []) + 2 ^ 32 - hsk (member "start_second" ∷ [])) % 2 ^ 32))

unfoldable pub daq_hsk_summary_values : Members → List Value
unfolding for_each surf_values words_values
daq_hsk_summary_values hsk =
    seconds (to_signed 32 (hsk (member "end_second" ∷ [])))
    ∷ (for_each nrealsurf 0 (surf_values hsk)
        ++ (for_each 12 0 (λ j. as_unsigned hsk (element "Hscalers_avg" j) ∷ [])
            ++ (for_each 12 0 (λ j. as_unsigned hsk (element "Vscalers_avg" j) ∷ [])
                ++ (unsigned_members hsk (
                      "MIE_total_H_avg" ∷ "MIE_total_V_avg" ∷ "aux_total_avg" ∷ "pps_rate"
                      ∷ "global_total_avg" ∷ "global_total_min" ∷ "global_total_max"
                      ∷ "global_total_rms" ∷ [])
                    ++ (as_int hsk (member "start_second" ∷ [])
                        ∷ duration hsk
                        ∷ (for_each 26 0
                              (λ j. as_unsigned hsk (element "enable_mask_fraction" j) ∷ [])
                            ++ (words_values hsk ++ counter_values hsk)))))))

unfoldable pub daq_hsk_summary_row : Members → Statement
unfolding daq_hsk_summary_columns daq_hsk_summary_values
daq_hsk_summary_row hsk =
    insert_into "daq_hsk_summarys" daq_hsk_summary_columns (daq_hsk_summary_values hsk)
