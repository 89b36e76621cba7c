-- ===== src/Formats/Old/DaqHskSummary.antt =====
-- Earlier versions of the DAQ housekeeping summary, kept in src/rawio_versions.h.
use libpueorawdata.Layout.{Ty, array, bits, end, field, int, struct}
use libpueorawdata.Geometry.{nbeams, nrealsurf}

unfoldable pub daq_hsk_summary_v0_t : Ty
daq_hsk_summary_v0_t = struct (
    field "surf"
      (array nrealsurf (
        struct (
          field "beams"
            (array nbeams (
              struct (
                bits "thresh_avg" 4 15
                  (bits "scaler_avg" 4 12 (bits "scaler_rms_div_16" 4 5 end)))))
            end)))
      (field "Hscalers_avg" (array 12 (int 1)) (
        field "Vscalers_avg" (array 12 (int 1)) (
          bits "MIE_total_H_avg" 8 9 (
            bits "MIE_total_V_avg" 8 9 (
              bits "aux_total_avg" 8 6 (
                bits "pps_rate" 8 2 (
                  bits "global_total_avg" 8 10 (
                    bits "global_total_min" 8 10 (
                      bits "global_total_max" 8 10 (
                        bits "global_total_rms" 8 8
                          (field "start_second" (int 4) (field "end_second" (int 4) end)))))))))))))

unfoldable pub daq_hsk_summary_v1_t : Ty
daq_hsk_summary_v1_t = struct (
    field "surf"
      (array nrealsurf (
        struct (
          field "beams"
            (array nbeams (
              struct (
                bits "thresh_avg" 4 15
                  (bits "scaler_avg" 4 12 (bits "scaler_rms_div_16" 4 5 end)))))
            end)))
      (field "Hscalers_avg" (array 12 (int 1)) (
        field "Vscalers_avg" (array 12 (int 1)) (
          bits "MIE_total_H_avg" 8 9 (
            bits "MIE_total_V_avg" 8 9 (
              bits "aux_total_avg" 8 6 (
                bits "pps_rate" 8 2 (
                  bits "global_total_avg" 8 10 (
                    bits "global_total_min" 8 10 (
                      bits "global_total_max" 8 10 (
                        bits "global_total_rms" 8 8 (
                          field "start_second" (int 4) (
                            field "end_second" (int 4)
                              (field "enable_mask_fraction" (array 26 (int 1)) end))))))))))))))
