-- ===== src/Db/Tables/Create.antt =====
-- The statements of the X_init functions and of init_db. Each table gets an index, or a hypertable
-- of TimescaleDB, over its time.
use Prim.Native.String.{◌++◌ as str_append}
use libpueorawdata.Prelude.{
  Bool, true, false, ◌&&◌, not, if◌then◌else◌, List, [], ◌∷◌, ◌++◌, String, map,
}
use libpueorawdata.Db.Statement.{
  Engine, sqlite, integer, real_number, boolean, char_1, text_type, Column, column, not_null_column,
  Statement, create_table, create_index, create_hypertable, create_extension,
}
use libpueorawdata.Db.Tables.Names.{
  index_def, time_type, data_type, integers, reals, texts, slow_integers, sun_sensor_columns,
  daq_hsk_integers, summary_integers,
}

abbrev is_sqlite : Engine → Bool
is_sqlite sqlite = true
is_sqlite _ = false

-- DB_MAKE_INDEX of the table of X, by the column T.
unfoldable pub make_index : Engine → Bool → String → String → Statement
make_index e timescale x t =
    if not (is_sqlite e) && timescale
    then create_hypertable (str_append x "s") t
    else create_index (str_append x "s") t

-- A table, with its `uid`.
abbrev new_table : Engine → String → List Column → Statement
new_table e name columns = create_table name (column "uid" (index_def e) ∷ columns)

abbrev time_columns : Engine → List String → List Column
time_columns e names = map (λ n. not_null_column n (time_type e)) names

unfoldable pub timemark_init : Engine → Bool → List Statement
unfolding index_def time_type make_index
timemark_init e ts =
    new_table e "timemarks" (
      time_columns e ("readout_time" ∷ [])
      ++ (integers ("readout_time_ns" ∷ [])
          ++ (time_columns e ("risetime" ∷ [])
              ++ (integers ("risetime_ns" ∷ [])
                  ++ (time_columns e ("falltime" ∷ [])
                      ++ integers ("falltime_ns" ∷ "rise_count" ∷ "flags" ∷ "channel" ∷ []))))))
    ∷ make_index e ts "timemark" "risetime"
    ∷ []

unfoldable pub startracker_init : Engine → Bool → List Statement
unfolding index_def time_type make_index
startracker_init e ts =
    new_table e "startrackers" (
      time_columns e ("st1_timestamp_s" ∷ [])
      ++ (integers ("st1_timestamp_ns" ∷ [])
          ++ (time_columns e ("st3_timestamp_s" ∷ []) ++ integers ("st3_timestamp_ns" ∷ []))))
    ∷ make_index e ts "startracker" "st1_timestamp_s"
    ∷ []

unfoldable pub daq_hsk_init : Engine → Bool → List Statement
unfolding index_def time_type make_index daq_hsk_integers
daq_hsk_init e ts =
    new_table e "daq_hsks" (time_columns e ("time" ∷ []) ++ daq_hsk_integers)
    ∷ make_index e ts "daq_hsk" "time"
    ∷ []

unfoldable pub daq_prio_status_init : Engine → Bool → List Statement
unfolding index_def time_type make_index
daq_prio_status_init e ts =
    new_table e "prio_statuss" (
      time_columns e ("start_time" ∷ "end_time" ∷ [])
      ++ (reals (
            "delay0_frac" ∷ "delay1_frac" ∷ "delay2_frac" ∷ "delay3_frac" ∷ "delay4_frac"
            ∷ "delay5_frac" ∷ "S0_frac" ∷ "S1_frac" ∷ "S2_frac" ∷ "S3_frac" ∷ "topblast_frac"
            ∷ "botblast_frac" ∷ "fullblast_frac" ∷ "fbblast_frac" ∷ "base0_frac" ∷ "base1_frac"
            ∷ "base2_frac" ∷ "base3_frac" ∷ "base4_frac" ∷ "base5_frac" ∷ [])
          ++ (integers ("nevents" ∷ "nsoftevents" ∷ [])
              ++ reals ("starlink_partition_free_GB" ∷ []))))
    ∷ make_index e ts "prio_status" "end_time"
    ∷ []

unfoldable pub daq_hsk_summary_init : Engine → Bool → List Statement
unfolding index_def time_type make_index summary_integers
daq_hsk_summary_init e ts =
    new_table e "daq_hsk_summarys" (time_columns e ("time" ∷ []) ++ summary_integers)
    ∷ make_index e ts "daq_hsk_summary" "time"
    ∷ []

unfoldable pub ss_init : Engine → Bool → List Statement
unfolding index_def time_type make_index sun_sensor_columns
ss_init e ts =
    new_table e "sun_sensors" (time_columns e ("time" ∷ []) ++ sun_sensor_columns)
    ∷ make_index e ts "sun_sensor" "time"
    ∷ []

unfoldable pub nav_att_init : Engine → Bool → List Statement
unfolding index_def time_type make_index
nav_att_init e ts =
    new_table e "nav_atts" (
      time_columns e ("readout_time" ∷ "gps_time" ∷ [])
      ++ (reals (
            "lat" ∷ "lon" ∷ "alt" ∷ "heading" ∷ "heading_sigma" ∷ "pitch" ∷ "pitch_sigma" ∷ "roll"
            ∷ "roll_sigma" ∷ "hdop" ∷ "vdop" ∷ [])
          ++ (column "source" char_1
              ∷ integers (
                  "nsats" ∷ "flags" ∷ "temperature" ∷ "antenna_current_0" ∷ "antenna_current_1"
                  ∷ "antenna_current_2" ∷ []))))
    ∷ make_index e ts "nav_att" "readout_time"
    ∷ []

unfoldable pub nav_pos_init : Engine → Bool → List Statement
unfolding index_def time_type make_index
nav_pos_init e ts =
    new_table e "nav_poss" (
      time_columns e ("readout_time" ∷ "gps_time" ∷ [])
      ++ (reals ("lat" ∷ "lon" ∷ "alt" ∷ "hdop" ∷ "vdop" ∷ [])
          ++ (column "source" char_1 ∷ integers ("nsats" ∷ "flags" ∷ []))))
    ∷ make_index e ts "nav_pos" "readout_time"
    ∷ []

unfoldable pub single_wf_init : Engine → Bool → List Statement
unfolding index_def time_type make_index
single_wf_init e ts =
    new_table e "single_waveforms" (
      time_columns e ("time" ∷ [])
      ++ (integers ("run" ∷ "event" ∷ "channel" ∷ "max" ∷ "min" ∷ [])
          ++ reals ("rms" ∷ "subsecond" ∷ [])))
    ∷ make_index e ts "single_waveform" "time"
    ∷ []

unfoldable pub slow_init : Engine → Bool → List Statement
unfolding index_def time_type make_index slow_integers
slow_init e ts =
    new_table e "slow_packets" (time_columns e ("time" ∷ []) ++ slow_integers)
    ∷ make_index e ts "slow_packet" "time"
    ∷ []

unfoldable pub cmd_echo_init : Engine → Bool → List Statement
unfolding index_def time_type make_index
cmd_echo_init e ts =
    new_table e "cmd_echos" (
      time_columns e ("time" ∷ [])
      ++ (integers ("len" ∷ "count" ∷ []) ++ column "data" (data_type e) ∷ []))
    ∷ make_index e ts "cmd_echo" "time"
    ∷ []

unfoldable pub logs_init : Engine → Bool → List Statement
unfolding index_def time_type make_index
logs_init e ts =
    new_table e "logs" (
      time_columns e ("time" ∷ [])
      ++ (column "is_until" boolean
          ∷ column "since_or_until" integer
          ∷ texts ("daemon" ∷ "grep" ∷ "logs" ∷ [])))
    ∷ make_index e ts "log" "time"
    ∷ []

-- DB_MAYBE_CREATE_HSK.
unfoldable pub maybe_create_hsk : Engine → Bool → String → List Statement
unfolding index_def time_type make_index
maybe_create_hsk e ts x =
    new_table e (str_append x "s") (
      time_columns e ("time" ∷ [])
      ++ (column "device" text_type ∷ column "sensor" text_type ∷ column x real_number ∷ []))
    ∷ make_index e ts x "time"
    ∷ []

-- What `init_db` writes to its stream, by the engine and PUEO_DB_INIT_WITH_TIMESCALEDB.
unfoldable pub init_statements : Engine → Bool → List Statement
unfolding maybe_create_hsk ss_init nav_att_init single_wf_init cmd_echo_init logs_init slow_init
    daq_hsk_init daq_hsk_summary_init startracker_init timemark_init
init_statements e ts =
    (if not (is_sqlite e) && ts then create_extension ∷ [] else [])
    ++ (maybe_create_hsk e ts "temperature"
        ++ (maybe_create_hsk e ts "voltage"
            ++ (maybe_create_hsk e ts "current"
                ++ (maybe_create_hsk e ts "power"
                    ++ (maybe_create_hsk e ts "flag"
                        ++ (maybe_create_hsk e ts "magnetic_field"
                            ++ (ss_init e ts
                                ++ (nav_att_init e ts
                                    ++ (single_wf_init e ts
                                        ++ (cmd_echo_init e ts
                                            ++ (logs_init e ts
                                                ++ (slow_init e ts
                                                    ++ (daq_hsk_init e ts
                                                        ++ (daq_hsk_summary_init e ts
                                                            ++ (startracker_init e ts
                                                            ++ timemark_init e ts)))))))))))))))
