-- ===== src/Db/Tables/Names.antt =====
-- The columns of the created tables, behind `uid`, which all tables have.
use libpueorawdata.Prelude.{List, [], ◌∷◌, ◌++◌, String, map}
use libpueorawdata.Formats.Base.{num_l2, ss_num_sensors}
use libpueorawdata.Geometry.{nrealsurf}
use libpueorawdata.Db.Statement.{
  Engine, sqlite, SqlType, serial, autoincrement, timestamptz, datetime, integer, real_number,
  varchar, text_type, bytea, Column, column, for_each, numbered,
}

-- DB_INDEX_DEF_X and DB_TIME_TYPE_X, as `h->type == DB_SQLITE ? … : …` chooses them.
unfoldable pub index_def : Engine → SqlType
index_def sqlite = autoincrement
index_def _ = serial

unfoldable pub time_type : Engine → SqlType
time_type sqlite = datetime
time_type _ = timestamptz

abbrev pub data_type : Engine → SqlType
data_type sqlite = text_type
data_type _ = bytea

abbrev pub integers : List String → List Column
integers names = map (λ n. column n integer) names

abbrev pub reals : List String → List Column
reals names = map (λ n. column n real_number) names

abbrev pub texts : List String → List Column
texts names = map (λ n. column n varchar) names

unfoldable pub slow_integers : List Column
unfolding for_each numbered
slow_integers = integers (
    "ncmds"
    ∷ "time_since_last_cmd"
    ∷ "last_cmd"
    ∷ "sipd_uptime"
    ∷ "cpu_uptime"
    ∷ "can_ping_world"
    ∷ "starlink_on"
    ∷ "los_on"
    ∷ "gpu_present"
    ∷ "nic_present"
    ∷ "turf_seen"
    ∷ "hsk_seen"
    ∷ "ss_seen"
    ∷ "current_run"
    ∷ "current_run_secs"
    ∷ "current_run_events"
    ∷ "acqd_running"
    ∷ "prioritizerd_running"
    ∷ "current_run_rf_events"
    ∷ "hsk_uptime"
    ∷ "pals_A_index"
    ∷ "pals_A_free"
    ∷ "pals_B_index"
    ∷ "pals_B_free"
    ∷ "ssd0_free"
    ∷ "ssd1_free"
    ∷ "ssd2_free"
    ∷ "ssd3_free"
    ∷ "ssd4_free"
    ∷ "heading_abx"
    ∷ "heading_boreas"
    ∷ "heading_cpt7"
    ∷ "turf_fix_type"
    ∷ "NIC_temperature"
    ∷ "SFC_temperature"
    ∷ "pwr_from_sun"
    ∷ "pwr_usage"
    ∷ "battery_state"
    ∷ "AMPA_current"
    ∷ "VPol_Crate_on"
    ∷ "HPol_Crate_on"
    ∷ "SFC_Voltage_on"
    ∷ "VPol_Current"
    ∷ "HPol_Current"
    ∷ "SFC_Current"
    ∷ (for_each num_l2 0 (λ i. numbered "L2_rates_V_" i "" ∷ [])
        ++ for_each num_l2 0 (λ i. numbered "L2_rates_H_" i "" ∷ [])))

unfoldable pub sun_sensor_columns : List Column
unfolding for_each numbered
sun_sensor_columns = for_each ss_num_sensors 0 (λ i.
    integers (
      numbered "x1_ss" i ""
      ∷ numbered "x2_ss" i ""
      ∷ numbered "y1_ss" i ""
      ∷ numbered "y2_ss" i ""
      ∷ [])
    ++ reals (numbered "tempSS_ss" i "" ∷ numbered "tempADS1220_ss" i "" ∷ []))

unfoldable pub counter_integers : List Column
unfolding for_each numbered
counter_integers =
    for_each 4 0 (λ j. column (numbered "turfio_words_recv_" j "") integer ∷ [])
    ++ integers (
        "qwords_sent" ∷ "events_sent" ∷ "trigger_count" ∷ "current_second" ∷ "last_pps"
        ∷ "llast_pps" ∷ "last_dead" ∷ "llast_dead" ∷ "panic_count" ∷ "occupancy" ∷ "ack_count"
        ∷ "latency" ∷ "trig_offset" ∷ "pps_trig_offset" ∷ [])

unfoldable pub daq_hsk_integers : List Column
unfolding for_each numbered counter_integers
daq_hsk_integers =
    for_each 4 0 (λ i.
      for_each 7 0 (λ j. column (numbered (numbered "turfio" i "_surf") j "_L1rate") integer ∷ []))
    ++ (integers (
          "L2_rateH" ∷ "L2_rateV" ∷ "soft_rate" ∷ "pps_rate" ∷ "ext_rate" ∷ "MIE_total_H"
          ∷ "MIE_total_V" ∷ "LF_total_H" ∷ "LF_total_V" ∷ "aux_total" ∷ "global_total"
          ∷ "l2_enable_mask" ∷ [])
        ++ counter_integers)

unfoldable pub summary_integers : List Column
unfolding for_each numbered counter_integers
summary_integers =
    for_each nrealsurf 0 (λ i. integers (
      numbered "surf" i "_thresh_avg_beamavg"
      ∷ numbered "surf" i "_scaler_avg_beamavg"
      ∷ numbered "surf" i "_scaler_rms_div_16_beamavg"
      ∷ numbered "surf" i "_max_thresh_avg"
      ∷ numbered "surf" i "_threshold_avg_beamMaxIndex"
      ∷ numbered "surf" i "_scaler_avg_forMaxBeam"
      ∷ numbered "surf" i "_scaler_rms_div_16_forMaxBeam"
      ∷ []))
    ++ (for_each 12 0 (λ j. column (numbered "L2_H" j "_scaler_avg") integer ∷ [])
        ++ (for_each 12 0 (λ j. column (numbered "L2_V" j "_scaler_avg") integer ∷ [])
            ++ (integers (
                  "MIE_total_H_avg" ∷ "MIE_total_V_avg" ∷ "aux_total_avg" ∷ "pps_rate"
                  ∷ "global_total_avg" ∷ "global_total_min" ∷ "global_total_max"
                  ∷ "global_total_rms" ∷ "start_second" ∷ "duration" ∷ [])
                ++ (for_each 26 0 (λ j. column (numbered "enable_mask_fraction_" j "") integer ∷ [])
                    ++ counter_integers))))
