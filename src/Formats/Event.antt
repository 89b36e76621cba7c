-- ===== src/Formats/Event.antt =====
-- The event formats of inc/pueo/rawdata.h: waveforms and trigger decisions.
use libpueorawdata.Layout.{Ty, array, bits, end, field, int, struct}
use libpueorawdata.Prelude.{◌*◌}
use libpueorawdata.Geometry.{max_buffer_length, nchan}
use libpueorawdata.Formats.Base.{time_t}

unfoldable pub waveform_t : Ty
waveform_t = struct (
    field "channel_id" (int 1) (
      field "surf_word" (int 1)
        (field "length" (int 2) (field "data" (array max_buffer_length (int 2)) end))))

unfoldable pub full_waveforms_t : Ty
unfolding time_t waveform_t
full_waveforms_t = struct (
    field "run" (int 4) (
      field "event" (int 4) (
        field "event_second" (int 4) (
          field "event_time" (int 4) (
            field "last_pps" (int 4) (
              field "llast_pps" (int 4) (
                field "deadtime_counter" (int 4) (
                  field "deadtime_counter_last_pps" (int 4) (
                    field "deadtime_counter_llast_pps" (int 4) (
                      bits "L2_mask" 4 24 (
                        bits "soft_trigger" 4 1 (
                          bits "pps_trigger" 4 1 (
                            bits "ext_trigger" 4 1 (
                              bits "reserved" 4 5 (
                                field "readout_time" time_t
                                  (field "wfs" (array nchan waveform_t) end))))))))))))))))

unfoldable pub priority_t : Ty
priority_t = struct (
    bits "trig_type" 2 2 (
      bits "topring_blast_flag" 2 1 (
        bits "botring_blast_flag" 2 1 (
          bits "fullpayload_blast_flag" 2 1 (
            bits "frontback_blast_flag" 2 1
              (bits "anthro_base_flag" 2 6 (bits "cal_type" 2 2 (bits "signal_level" 2 2 end))))))))

unfoldable pub single_waveform_t : Ty
unfolding priority_t time_t waveform_t
single_waveform_t = struct (
    field "run" (int 4) (
      field "event" (int 4) (
        field "event_second" (int 4) (
          field "event_time" (int 4) (
            field "last_pps" (int 4) (
              field "llast_pps" (int 4) (
                field "deadtime_counter" (int 4) (
                  field "deadtime_counter_last_pps" (int 4) (
                    field "deadtime_counter_llast_pps" (int 4) (
                      bits "L2_mask" 4 24 (
                        bits "soft_trigger" 4 1 (
                          bits "pps_trigger" 4 1 (
                            bits "ext_trigger" 4 1 (
                              bits "reserved" 4 5 (
                                field "readout_time" time_t (
                                  field "prio" priority_t
                                    (field "wf" waveform_t end)))))))))))))))))

unfoldable pub encoded_waveform_t : Ty
unfolding time_t
encoded_waveform_t = struct (
    field "run" (int 4) (
      field "event" (int 4) (
        field "channel_id" (int 1) (
          field "flags" (int 1) (
            field "nsamples" (int 2) (
              field "encoded_flags" (int 2) (
                field "encoded_nbytes" (int 2) (
                  field "encoded" (array (2 * max_buffer_length) (int 1))
                    (field "readout_time" time_t end)))))))))

unfoldable pub saved_priorities_t : Ty
unfolding priority_t
saved_priorities_t =
    struct (field "run" (int 4) (field "event" (int 4) (field "prio" priority_t end)))
