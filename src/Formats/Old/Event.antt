-- ===== src/Formats/Old/Event.antt =====
-- Earlier versions of the event and status structs, kept in src/rawio_versions.h.
use libpueorawdata.Layout.{Ty, array, bits, end, field, int, struct}
use libpueorawdata.Geometry.{nchan}
use libpueorawdata.Formats.Base.{time_t}
use libpueorawdata.Formats.Event.{waveform_t}

unfoldable pub slow_v0_t : Ty
slow_v0_t = struct (
    field "ncmds" (int 2) (
      field "time_since_last_cmd" (int 2) (
        bits "last_cmd" 4 8 (
          bits "sipd_uptime" 4 24 (
            field "cpu_time" (int 4) (
              bits "cpu_uptime" 4 24 (
                bits "can_ping_world" 4 1 (
                  bits "starlink_on" 4 1 (
                    bits "los_on" 4 1 (
                      field "current_run" (int 2) (
                        field "current_run_secs" (int 2) (
                          field "current_run_events" (int 4) (
                            field "L1_rates" (array 12 (int 2))
                              (field "L2_rates" (array 12 (int 1)) end))))))))))))))

unfoldable pub full_waveforms_v0_t : Ty
unfolding waveform_t
full_waveforms_v0_t = struct (
    field "run" (int 4) (
      field "event" (int 4) (
        field "event_second" (int 4) (
          field "event_time" (int 4) (
            field "last_pps" (int 4) (
              field "llast_pps" (int 4) (
                field "trigger_meta" (array 4 (int 4))
                  (field "wfs" (array nchan waveform_t) end))))))))

unfoldable pub single_waveform_v0_t : Ty
unfolding waveform_t
single_waveform_v0_t = struct (
    field "run" (int 4) (
      field "event" (int 4) (
        field "event_second" (int 4) (
          field "event_time" (int 4) (
            field "last_pps" (int 4) (
              field "llast_pps" (int 4)
                (field "trigger_meta" (array 4 (int 4)) (field "wf" waveform_t end))))))))

unfoldable pub single_waveform_v1_t : Ty
unfolding time_t waveform_t
single_waveform_v1_t = struct (
    field "run" (int 4) (
      field "event" (int 4) (
        field "event_second" (int 4) (
          field "event_time" (int 4) (
            field "last_pps" (int 4) (
              field "llast_pps" (int 4) (
                field "deadtime_counter" (int 4) (
                  field "deadtime_counter_last_pps" (int 4) (
                    field "deadtime_counter_llast_pps" (int 4) (
                      bits "L2_mask" 4 24 (
                        bits "soft_trigger" 4 1 (
                          bits "pps_trigger" 4 1 (
                            bits "ext_trigger" 4 1 (
                              bits "reserved" 4 5 (
                                field "readout_time" time_t
                                  (field "wf" waveform_t end))))))))))))))))
