-- ===== src/Db/Rows/Housekeeping.antt =====
-- Slow-rate status and sun sensors: pueo_db_insert_slow and pueo_db_insert_ss of src/rawio_db.c.
use libpueorawdata.Prelude.{ℕ, ◌/◌, ◌==◌, if◌then◌else◌, List, [], ◌∷◌, ◌++◌, String}
use libpueorawdata.Prelude.Int.{pos}
use libpueorawdata.Formats.Base.{num_l2, ss_num_sensors}
use libpueorawdata.Layout.Access.{Place, member, at, to_signed}
use libpueorawdata.Db.Statement.{
  Value, seconds, number, real, Real, of_int, decimal, quotient, product, difference, Statement,
  insert_into, for_each, numbered,
}
use libpueorawdata.Db.Rows.Members.{Members, inside, as_unsigned, time, unsigned_members}

-- PUEO_SS_TEMPERATURE_CONVERT_ADS1220: the && of the first branch makes a 1 of a number that is not 0,
-- as every X - 1 there is.
unfoldable pub convert_ads1220 : ℕ → Real
convert_ads1220 x =
    if x / 8192 == 0
    then product (of_int (pos x)) (decimal "0.03125")
    else product (of_int (pos 1)) (decimal "-0.03125")

-- PUEO_SS_TEMPERATURE_CONVERT_SS.
unfoldable pub convert_ss : ℕ → Real
convert_ss x =
    difference
      (product (product (quotient (of_int (pos x)) (decimal "1024.")) (of_int (pos 5)))
        (of_int (pos 100)))
      (decimal "273.15")

abbrev sensor_member : ℕ → String → Place
sensor_member i name = member "ss" ∷ at i ∷ member name ∷ []

unfoldable pub ss_columns : List String
unfolding for_each numbered
ss_columns =
    "time"
    ∷ for_each ss_num_sensors 0 (λ i.
      numbered "x1_ss" i ""
      ∷ numbered "x2_ss" i ""
      ∷ numbered "y1_ss" i ""
      ∷ numbered "y2_ss" i ""
      ∷ numbered "tempSS_ss" i ""
      ∷ numbered "tempADS1220_ss" i ""
      ∷ [])

unfoldable pub ss_row : Members → Statement
unfolding for_each ss_columns convert_ads1220 convert_ss
ss_row ss = insert_into "sun_sensors" ss_columns (
    time ss "readout_time"
    ∷ for_each ss_num_sensors 0 (λ i.
      as_unsigned ss (sensor_member i "x1")
      ∷ as_unsigned ss (sensor_member i "x2")
      ∷ as_unsigned ss (sensor_member i "y1")
      ∷ as_unsigned ss (sensor_member i "y2")
      ∷ real (convert_ss (ss (sensor_member i "tempSS")))
      ∷ real (convert_ads1220 (ss (sensor_member i "tempADS1220")))
      ∷ []))

unfoldable pub slow_columns : List String
unfolding for_each numbered
slow_columns =
    "time"
    ∷ "ncmds"
    ∷ "time_since_last_cmd"
    ∷ "last_cmd"
    ∷ "sipd_uptime"
    ∷ "cpu_uptime"
    ∷ "can_ping_world"
    ∷ "starlink_on"
    ∷ "los_on"
    ∷ "gpu_present"
    ∷ "nic_present"
    ∷ "turf_seen"
    ∷ "hsk_seen"
    ∷ "ss_seen"
    ∷ "current_run"
    ∷ "current_run_secs"
    ∷ "current_run_events"
    ∷ "acqd_running"
    ∷ "prioritizerd_running"
    ∷ "current_run_rf_events"
    ∷ "hsk_uptime"
    ∷ "pals_A_index"
    ∷ "pals_A_free"
    ∷ "pals_B_index"
    ∷ "pals_B_free"
    ∷ "ssd0_free"
    ∷ "ssd1_free"
    ∷ "ssd2_free"
    ∷ "ssd3_free"
    ∷ "ssd4_free"
    ∷ "heading_abx"
    ∷ "heading_boreas"
    ∷ "heading_cpt7"
    ∷ "turf_fix_type"
    ∷ "NIC_temperature"
    ∷ "SFC_temperature"
    ∷ "pwr_from_sun"
    ∷ "pwr_usage"
    ∷ "battery_state"
    ∷ "AMPA_current"
    ∷ "VPol_Crate_on"
    ∷ "HPol_Crate_on"
    ∷ "SFC_Voltage_on"
    ∷ "VPol_Current"
    ∷ "HPol_Current"
    ∷ "SFC_Current"
    ∷ (for_each num_l2 0 (λ i. numbered "L2_rates_V_" i "" ∷ [])
        ++ for_each num_l2 0 (λ i. numbered "L2_rates_H_" i "" ∷ []))

abbrev pals_member : ℕ → String → Place
pals_member i name = member "pals" ∷ at i ∷ member name ∷ []

abbrev l2_rate : ℕ → ℕ → Place
l2_rate i pol = member "L2_rates" ∷ at i ∷ at pol ∷ []

unfoldable pub slow_values : Members → List Value
unfolding for_each
slow_values slow =
    seconds (to_signed 32 (slow (member "cpu_time" ∷ [])))
    ∷ (unsigned_members slow (
          "ncmds" ∷ "time_since_last_cmd" ∷ "last_cmd" ∷ "sipd_uptime" ∷ "cpu_uptime"
          ∷ "can_ping_world" ∷ "starlink_on" ∷ "los_on" ∷ "gpu_present" ∷ "nic_present"
          ∷ "turf_seen" ∷ "hsk_seen" ∷ "ss_seen" ∷ "current_run" ∷ "current_run_secs"
          ∷ "current_run_events" ∷ "acqd_running" ∷ "prioritizerd_running" ∷ "current_run_rf_events"
          ∷ "hsk_uptime" ∷ [])
        ++ (as_unsigned slow (pals_member 0 "index")
            ∷ as_unsigned slow (pals_member 0 "free")
            ∷ as_unsigned slow (pals_member 1 "index")
            ∷ as_unsigned slow (pals_member 1 "free")
            ∷ as_unsigned slow (inside "ssd" "ssd0_free")
            ∷ as_unsigned slow (inside "ssd" "ssd1_free")
            ∷ as_unsigned slow (inside "ssd" "ssd2_free")
            ∷ as_unsigned slow (inside "ssd" "ssd3_free")
            ∷ as_unsigned slow (inside "ssd" "ssd4_free")
            ∷ as_unsigned slow (inside "nav" "heading_abx")
            ∷ as_unsigned slow (inside "nav" "heading_boreas")
            ∷ as_unsigned slow (inside "nav" "heading_cpt7")
            ∷ as_unsigned slow (inside "nav" "turf_fix_type")
            ∷ number (to_signed 8 (slow (member "NIC_temperature" ∷ [])))
            ∷ number (to_signed 8 (slow (member "SFC_temperature" ∷ [])))
            ∷ (unsigned_members slow (
                  "pwr_from_sun" ∷ "pwr_usage" ∷ "battery_state" ∷ "AMPA_current" ∷ "VPol_Crate_on"
                  ∷ "HPol_Crate_on" ∷ "SFC_Voltage_on" ∷ "VPol_Current" ∷ "HPol_Current"
                  ∷ "SFC_Current" ∷ [])
                ++ (for_each num_l2 0 (λ i. as_unsigned slow (l2_rate i 0) ∷ [])
                    ++ for_each num_l2 0 (λ i. as_unsigned slow (l2_rate i 1) ∷ [])))))

unfoldable pub slow_row : Members → Statement
unfolding slow_columns slow_values
slow_row slow = insert_into "slow_packets" slow_columns (slow_values slow)
