-- ===== src/Formats/Old/DaqHsk.antt =====
-- Earlier versions of the DAQ housekeeping struct, kept in src/rawio_versions.h.
use libpueorawdata.Layout.{Ty, array, bits, end, field, int, struct}
use libpueorawdata.Geometry.{nbeams, nchan_per_surf, nsurf}
use libpueorawdata.Formats.Base.{time_t}

unfoldable pub daq_hsk_v0_t : Ty
unfolding time_t
daq_hsk_v0_t = struct (
    field "surfs"
      (array nsurf (
        struct (
          field "beams"
            (array nbeams (
              struct (
                bits "threshold" 8 18 (
                  bits "pseudothreshold" 8 18 (
                    bits "scaler" 8 12 (
                      bits "pseudoscaler" 8 12
                        (bits "in_mask" 8 1 (bits "scaler_bank" 8 1 end))))))))
            (field "agc_scale" (array nchan_per_surf (int 4)) (
              field "agc_offset" (array nchan_per_surf (int 2)) (
                field "readout_time_start" time_t (
                  field "ms_elapsed" (int 2)
                    (field "surf_link" (int 1) (field "surf_slot" (int 1) end)))))))))
      (field "l2_readout_time" time_t (
        field "Hscalers" (array 12 (int 4)) (
          field "Vscalers" (array 12 (int 4)) (
            field "scaler_readout_time" time_t (
              field "turfio_L1_rate" (array 4 (array 7 (int 4))) (
                field "soft_rate" (int 4)
                  (field "pps_rate" (int 4) (field "ext_rate" (int 4) end)))))))))

unfoldable pub daq_hsk_v1_t : Ty
unfolding time_t
daq_hsk_v1_t = struct (
    field "surfs"
      (array nsurf (
        struct (
          field "beams"
            (array nbeams (
              struct (
                bits "threshold" 8 18 (
                  bits "pseudothreshold" 8 18 (
                    bits "scaler" 8 12 (
                      bits "pseudoscaler" 8 12
                        (bits "in_mask" 8 1 (bits "scaler_bank" 8 1 end))))))))
            (field "agc_scale" (array nchan_per_surf (int 4)) (
              field "agc_offset" (array nchan_per_surf (int 2)) (
                field "readout_time_start" time_t (
                  field "ms_elapsed" (int 2)
                    (field "surf_link" (int 1) (field "surf_slot" (int 1) end)))))))))
      (field "l2_readout_time" time_t (
        field "Hscalers" (array 12 (int 4)) (
          field "Vscalers" (array 12 (int 4)) (
            field "scaler_readout_time" time_t (
              field "turfio_L1_rate" (array 4 (array 7 (int 4))) (
                field "soft_rate" (int 4) (
                  field "pps_rate" (int 4) (
                    field "ext_rate" (int 4) (
                      field "MIE_total_H" (int 2) (
                        field "MIE_total_V" (int 2) (
                          field "LF_total_H" (int 2) (
                            field "LF_total_V" (int 2) (
                              field "aux_total" (int 2)
                                (field "global_total" (int 2) end)))))))))))))))

unfoldable pub daq_hsk_v2_t : Ty
unfolding time_t
daq_hsk_v2_t = struct (
    field "surfs"
      (array nsurf (
        struct (
          field "beams"
            (array nbeams (
              struct (
                bits "threshold" 8 18 (
                  bits "pseudothreshold" 8 18 (
                    bits "scaler" 8 12 (
                      bits "pseudoscaler" 8 12
                        (bits "in_mask" 8 1 (bits "scaler_bank" 8 1 end))))))))
            (field "agc_scale" (array nchan_per_surf (int 4)) (
              field "agc_offset" (array nchan_per_surf (int 2)) (
                field "readout_time_start" time_t (
                  field "ms_elapsed" (int 2)
                    (field "surf_link" (int 1) (field "surf_slot" (int 1) end)))))))))
      (field "l2_readout_time" time_t (
        field "Hscalers" (array 12 (int 4)) (
          field "Vscalers" (array 12 (int 4)) (
            field "scaler_readout_time" time_t (
              field "turfio_L1_rate" (array 4 (array 7 (int 4))) (
                field "soft_rate" (int 4) (
                  field "pps_rate" (int 4) (
                    field "ext_rate" (int 4) (
                      field "MIE_total_H" (int 2) (
                        field "MIE_total_V" (int 2) (
                          field "LF_total_H" (int 2) (
                            field "LF_total_V" (int 2) (
                              field "aux_total" (int 2) (
                                field "global_total" (int 2)
                                  (field "l2_enable_mask" (int 4) end))))))))))))))))
