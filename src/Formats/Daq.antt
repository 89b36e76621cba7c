-- ===== src/Formats/Daq.antt =====
-- The DAQ housekeeping formats of inc/pueo/rawdata.h.
use libpueorawdata.Layout.{Ty, array, bits, end, field, int, struct}
use libpueorawdata.Geometry.{nbeams, nchan_per_surf, nrealsurf, nsurf}
use libpueorawdata.Formats.Base.{time_t}

unfoldable pub daq_hsk_t : Ty
unfolding time_t
daq_hsk_t = struct (
    field "surfs"
      (array nsurf (
        struct (
          field "beams"
            (array nbeams (
              struct (
                bits "threshold" 8 18 (
                  bits "pseudothreshold" 8 18 (
                    bits "scaler" 8 12 (
                      bits "pseudoscaler" 8 12
                        (bits "in_mask" 8 1 (bits "scaler_bank" 8 1 end))))))))
            (field "agc_scale" (array nchan_per_surf (int 4)) (
              field "agc_offset" (array nchan_per_surf (int 2)) (
                field "readout_time_start" time_t (
                  field "ms_elapsed" (int 2)
                    (field "surf_link" (int 1) (field "surf_slot" (int 1) end)))))))))
      (field "l2_readout_time" time_t (
        field "Hscalers" (array 12 (int 4)) (
          field "Vscalers" (array 12 (int 4)) (
            field "scaler_readout_time" time_t (
              field "turfio_L1_rate" (array 4 (array 7 (int 4))) (
                field "soft_rate" (int 4) (
                  field "pps_rate" (int 4) (
                    field "ext_rate" (int 4) (
                      field "MIE_total_H" (int 2) (
                        field "MIE_total_V" (int 2) (
                          field "LF_total_H" (int 2) (
                            field "LF_total_V" (int 2) (
                              field "aux_total" (int 2) (
                                field "global_total" (int 2) (
                                  field "l2_enable_mask" (int 4) (
                                    field "turfio_words_recv" (array 4 (int 4)) (
                                      field "qwords_sent" (int 4) (
                                        field "events_sent" (int 4) (
                                          field "trigger_count" (int 4) (
                                            field "current_second" (int 4) (
                                              field "last_pps" (int 4) (
                                                field "llast_pps" (int 4) (
                                                  field "last_dead" (int 4) (
                                                    field "llast_dead" (int 4) (
                                                      field "panic_count" (int 4) (
                                                        field "occupancy" (int 4) (
                                                          field "ack_count" (int 2) (
                                                            field "latency" (int 2) (
                                                            field "offset" (int 2) (
                                                            field "pps_trig_offset" (int 2)
                                                            end)))))))))))))))))))))))))))))))

unfoldable pub daq_hsk_summary_t : Ty
daq_hsk_summary_t = struct (
    field "surf"
      (array nrealsurf (
        struct (
          field "beams"
            (array nbeams (
              struct (
                bits "thresh_avg" 4 15
                  (bits "scaler_avg" 4 12 (bits "scaler_rms_div_16" 4 5 end)))))
            end)))
      (field "Hscalers_avg" (array 12 (int 1)) (
        field "Vscalers_avg" (array 12 (int 1)) (
          bits "MIE_total_H_avg" 8 9 (
            bits "MIE_total_V_avg" 8 9 (
              bits "aux_total_avg" 8 6 (
                bits "pps_rate" 8 2 (
                  bits "global_total_avg" 8 10 (
                    bits "global_total_min" 8 10 (
                      bits "global_total_max" 8 10 (
                        bits "global_total_rms" 8 8 (
                          field "start_second" (int 4) (
                            field "end_second" (int 4) (
                              field "enable_mask_fraction" (array 26 (int 1)) (
                                field "turfio_words_recv" (array 4 (int 4)) (
                                  field "qwords_sent" (int 4) (
                                    field "events_sent" (int 4) (
                                      field "trigger_count" (int 4) (
                                        field "current_second" (int 4) (
                                          field "last_pps" (int 4) (
                                            field "llast_pps" (int 4) (
                                              field "last_dead" (int 4) (
                                                field "llast_dead" (int 4) (
                                                  field "panic_count" (int 4) (
                                                    field "occupancy" (int 4) (
                                                      field "ack_count" (int 2) (
                                                        field "latency" (int 2) (
                                                          field "offset" (int 2) (
                                                            field "pps_trig_offset" (int 2)
                                                            end)))))))))))))))))))))))))))))
