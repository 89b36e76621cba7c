-- ===== src/Formats/Slow.antt =====
-- The slow-rate status format of inc/pueo/rawdata.h.
use libpueorawdata.Layout.{Ty, array, bits, end, field, int, struct}
use libpueorawdata.Formats.Base.{num_l2}

unfoldable pub slow_t : Ty
slow_t = struct (
    field "ncmds" (int 2) (
      field "time_since_last_cmd" (int 2) (
        bits "last_cmd" 4 8 (
          bits "sipd_uptime" 4 24 (
            field "cpu_time" (int 4) (
              bits "cpu_uptime" 4 24 (
                bits "can_ping_world" 4 1 (
                  bits "starlink_on" 4 1 (
                    bits "los_on" 4 1 (
                      bits "gpu_present" 4 1 (
                        bits "nic_present" 4 1 (
                          bits "turf_seen" 4 1 (
                            bits "hsk_seen" 4 1 (
                              bits "ss_seen" 4 1 (
                                field "current_run" (int 2) (
                                  field "current_run_secs" (int 2) (
                                    bits "current_run_events" 4 24 (
                                      bits "acqd_running" 4 1 (
                                        bits "prioritizerd_running" 4 1 (
                                          bits "current_run_rf_events" 4 24 (
                                            bits "hsk_uptime" 4 24 (
                                              field "L2_rates" (array num_l2 (array 2 (int 2))) (
                                                field "pals"
                                                  (array 2 (
                                                    struct
                                                      (bits "index" 2 3 (bits "free" 2 13 end))))
                                                  (field "ssd"
                                                    (struct (
                                                      bits "ssd0_free" 8 12 (
                                                        bits "ssd1_free" 8 12 (
                                                          bits "ssd2_free" 8 12 (
                                                            bits "ssd3_free" 8 12
                                                            (bits "ssd4_free" 8 12 end))))))
                                                    (field "nav"
                                                      (struct (
                                                        bits "heading_abx" 4 9 (
                                                          bits "heading_boreas" 4 9 (
                                                            bits "heading_cpt7" 4 9
                                                            (bits "turf_fix_type" 4 2 end)))))
                                                      (field "NIC_temperature" (int 1) (
                                                        field "SFC_temperature" (int 1) (
                                                          bits "pwr_from_sun" 4 11 (
                                                            bits "pwr_usage" 4 11 (
                                                            bits "battery_state" 4 3 (
                                                            bits "AMPA_current" 4 4 (
                                                            bits "VPol_Crate_on" 4 1 (
                                                            bits "HPol_Crate_on" 4 1 (
                                                            bits "SFC_Voltage_on" 4 1 (
                                                            field "VPol_Current" (int 1) (
                                                            field "HPol_Current" (int 1) (
                                                            field "SFC_Current" (int 1)
                                                            end)))))))))))))))))))))))))))))))))))))
