-- ===== src/Formats/Command.antt =====
-- The command echo, log, file-download and prioritizer-status formats of inc/pueo/rawdata.h.
use libpueorawdata.Layout.{Ty, array, bits, end, field, int, struct}
use libpueorawdata.Formats.Base.{max_file_download_length, time_t}

unfoldable pub cmd_echo_t : Ty
cmd_echo_t = struct (
    field "when" (int 4)
      (bits "len_m1" 4 8 (bits "count" 4 24 (field "data" (array 256 (int 1)) end))))

unfoldable pub logs_t : Ty
logs_t = struct (
    bits "utc_retrieved" 4 31 (
      bits "is_until" 4 1 (
        field "rel_time_since_or_until" (int 2) (
          field "daemon_len" (int 1) (
            field "grep_len" (int 1)
              (field "msg_len" (int 2) (field "buf" (array 2048 (int 1)) end)))))))

unfoldable pub file_download_t : Ty
file_download_t = struct (
    bits "offset" 4 31 (
      bits "read_ok" 4 1 (
        bits "mtime" 4 31 (
          bits "binary" 4 1 (
            field "fname" (array 30 (int 1)) (
              field "len" (int 2) (field "bytes" (array max_file_download_length (int 1)) end)))))))

unfoldable pub prio_status_t : Ty
unfolding time_t
prio_status_t = struct (
    field "start_time" time_t (
      field "end_time" time_t (
        field "delay_frac" (array 6 (int 4)) (
          field "S_frac" (array 4 (int 4)) (
            field "blast_frac" (array 4 (int 4)) (
              field "anthro_frac" (array 6 (int 4)) (
                field "total_events" (int 4) (
                  field "total_force" (int 4)
                    (field "starlink_partition_free_GB" (int 4) end)))))))))
