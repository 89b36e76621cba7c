-- ===== src/Dump/Status.antt =====
-- pueo_dump_slow, _ss, _cmd_echo, _logs, _file_download and _prio_status of src/rawio_dump.c.
use libpueorawdata.Prelude.{ℕ, ◌+◌, ◌==◌, true, false, List, [], ◌∷◌, ◌++◌, String}
use libpueorawdata.Prelude.Int.{pos}
use libpueorawdata.Prelude.Run.{Run, done, ◌>>=◌}
use libpueorawdata.Formats.Base.{ss_num_sensors, max_file_download_length}
use libpueorawdata.Layout.Access.{member, at}
use libpueorawdata.Db.Statement.{for_each}
use libpueorawdata.Db.Rows.Members.{Members, element}
use libpueorawdata.Db.Rows.Housekeeping.{convert_ads1220, convert_ss}
use libpueorawdata.Db.Rows.Telemetry.{text_at}
use libpueorawdata.Dump.Print.{
  Printed, decimal, hexadecimal, real, chars, Print, start, end, start_array, end_array,
  start_object, end_object, key, unsigned_keys, hex_keys, float_keys, truth_keys, time_keys,
  float_array, counted_array,
}

unfoldable pub dump_slow : Members → List Print
dump_slow s =
    start "slow"
    ∷ (unsigned_keys s (
          "ncmds" ∷ "time_since_last_cmd" ∷ "last_cmd" ∷ "sipd_uptime" ∷ "cpu_time" ∷ "cpu_uptime"
          ∷ "can_ping_world" ∷ "starlink_on" ∷ "los_on" ∷ "current_run" ∷ "current_run_secs"
          ∷ "current_run_events" ∷ [])
        ++ (end ∷ []))

abbrev sun_member : Members → ℕ → String → ℕ
sun_member s i name = s (member "ss" ∷ at i ∷ member name ∷ [])

unfoldable pub dump_sun_sensor : Members → ℕ → List Print
unfolding convert_ads1220 convert_ss
dump_sun_sensor s i =
    start_object
    ∷ key "idx" (decimal (pos i))
    ∷ key "x1" (decimal (pos (sun_member s i "x1")))
    ∷ key "x2" (decimal (pos (sun_member s i "x2")))
    ∷ key "y1" (decimal (pos (sun_member s i "y1")))
    ∷ key "y2" (decimal (pos (sun_member s i "y2")))
    ∷ key "tempADS1220_raw" (decimal (pos (sun_member s i "tempADS1220")))
    ∷ key "tempSS_raw" (decimal (pos (sun_member s i "tempSS")))
    ∷ key "tempADS1220" (real (convert_ads1220 (sun_member s i "tempADS1220")))
    ∷ key "tempSS" (real (convert_ss (sun_member s i "tempSS")))
    ∷ end_object
    ∷ []

unfoldable pub dump_ss : Members → List Print
unfolding dump_sun_sensor for_each
dump_ss s =
    start "ss"
    ∷ start_array "ss"
    ∷ (for_each ss_num_sensors 0 (λ i. dump_sun_sensor s i)
        ++ (end_array
            ∷ (time_keys s ("readout_time" ∷ [])
                ++ (unsigned_keys s ("sequence_number" ∷ [])
                    ++ (hex_keys s ("flags" ∷ []) ++ (end ∷ []))))))

abbrev pub hex_byte : Members → String → ℕ → ℕ → Printed
hex_byte x name digits i = hexadecimal digits (x (element name i))

unfoldable pub dump_cmd_echo : Members → Run (List Print)
unfolding counted_array
dump_cmd_echo e = do
  let len = e (member "len_m1" ∷ []) + 1
  data_array ← counted_array "data" 256 len (hex_byte e "data" 2)
  done (
      start "cmd_echo"
      ∷ (unsigned_keys e ("when" ∷ [])
          ++ (key "len" (decimal (pos len))
              ∷ (unsigned_keys e ("count" ∷ []) ++ (data_array ∷ end ∷ [])))))

unfoldable pub dump_logs : Members → Run (List Print)
unfolding text_at
dump_logs l = do
  let daemon_len = l (member "daemon_len" ∷ [])
  let grep_len = l (member "grep_len" ∷ [])
  daemon ← text_at l "buf" 2048 daemon_len 0
  grep ← text_at l "buf" 2048 grep_len daemon_len
  msg ← text_at l "buf" 2048 (l (member "msg_len" ∷ [])) (daemon_len + grep_len)
  done (
      start "logs"
      ∷ (unsigned_keys l ("utc_retrieved" ∷ [])
          ++ (truth_keys l ("is_until" ∷ [])
              ++ (unsigned_keys l ("rel_time_since_or_until" ∷ [])
                  ++ (key "daemon" (chars daemon)
                      ∷ key "grep" (chars grep)
                      ∷ key "logs" (chars msg)
                      ∷ end
                      ∷ [])))))

-- The bytes as an array when they are binary, else as text.
unfoldable pub dump_contents : Members → Run Print
unfolding counted_array text_at
dump_contents dl = elim (dl (member "binary" ∷ []) == 0) [
  | false ↦
      counted_array "bytes" max_file_download_length (dl (member "len" ∷ []))
        (hex_byte dl "bytes" 1)
  | true ↦ do
    contents ← text_at dl "bytes" max_file_download_length (dl (member "len" ∷ [])) 0
    done (key "text" (chars contents))
]

-- `fname` ends at its first 0, or at the 0 that is put behind its 30 bytes.
unfoldable pub dump_file_download : Members → Run (List Print)
unfolding dump_contents text_at
dump_file_download dl = do
  fname ← text_at dl "fname" 30 30 0
  contents ← dump_contents dl
  done (
      start "file_download"
      ∷ (unsigned_keys dl ("mtime" ∷ [])
          ++ (truth_keys dl ("read_ok" ∷ [])
              ++ (unsigned_keys dl ("offset" ∷ [])
                  ++ (key "filename" (chars fname)
                      ∷ (unsigned_keys dl ("len" ∷ []) ++ (contents ∷ end ∷ [])))))))

unfoldable pub dump_prio_status : Members → List Print
dump_prio_status s =
    start "prio_status"
    ∷ (time_keys s ("start_time" ∷ "end_time" ∷ [])
        ++ (float_array s "delay_frac" 6
            ∷ float_array s "S_frac" 4
            ∷ float_array s "blast_frac" 4
            ∷ float_array s "anthro_frac" 6
            ∷ (unsigned_keys s ("total_events" ∷ "total_force" ∷ [])
                ++ (float_keys s ("starlink_partition_free_GB" ∷ []) ++ (end ∷ [])))))
