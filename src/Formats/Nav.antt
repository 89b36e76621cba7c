-- ===== src/Formats/Nav.antt =====
-- The navigation, timing and sun-sensor formats of inc/pueo/rawdata.h.
use libpueorawdata.Layout.{Ty, array, bits, end, field, int, struct}
use libpueorawdata.Formats.Base.{ss_num_sensors, time_t}

unfoldable pub nav_att_t : Ty
unfolding time_t
nav_att_t = struct (
    field "readout_time" time_t (
      field "gps_time" time_t (
        field "lat" (int 4) (
          field "lon" (int 4) (
            field "alt" (int 4) (
              field "heading" (int 4) (
                field "pitch" (int 4) (
                  field "roll" (int 4) (
                    field "heading_sigma" (int 4) (
                      field "pitch_sigma" (int 4) (
                        field "roll_sigma" (int 4) (
                          field "vdop" (int 4) (
                            field "hdop" (int 4) (
                              field "source" (int 1) (
                                field "nsats" (int 1) (
                                  field "flags" (int 1) (
                                    field "antenna_currents" (array 3 (int 2))
                                      (field "temperature" (int 2) end))))))))))))))))))

-- `struct sat`, the element of `sats`.
unfoldable pub sat_t : Ty
sat_t = struct (
    bits "used" 1 1 (
      bits "type" 1 3 (
        bits "qualityInd" 1 4 (
          field "svid" (int 1) (
            field "el" (int 2)
              (field "az" (int 2) (field "cno" (int 2) (field "prRes" (int 2) end))))))))

unfoldable pub nav_sat_t : Ty
unfolding time_t sat_t
nav_sat_t = struct (
    field "readout_time" time_t (
      field "gps_time" time_t (
        field "nsats_used" (int 1) (
          field "nsats_visible" (int 1)
            (field "source" (int 1) (field "sats" (array 255 sat_t) end))))))

unfoldable pub nav_pos_t : Ty
unfolding time_t
nav_pos_t = struct (
    field "readout_time" time_t (
      field "gps_time" time_t (
        field "lat" (int 4) (
          field "lon" (int 4) (
            field "alt" (int 4) (
              field "x" (array 3 (int 4)) (
                field "v" (array 3 (int 4)) (
                  field "vdop" (int 4) (
                    field "hdop" (int 4) (
                      field "source" (int 1)
                        (field "nsats" (int 1) (field "flags" (int 1) end))))))))))))

unfoldable pub timemark_t : Ty
unfolding time_t
timemark_t = struct (
    field "readout_time" time_t (
      field "rising" time_t (
        field "falling" time_t
          (field "rise_count" (int 2) (field "channel" (int 1) (field "flags" (int 1) end))))))

unfoldable pub startracker_t : Ty
unfolding time_t
startracker_t = struct (field "time1" time_t (field "time3" time_t end))

unfoldable pub ss_t : Ty
unfolding time_t
ss_t = struct (
    field "ss"
      (array ss_num_sensors (
        struct (
          bits "x1" 16 24 (
            bits "x2" 16 24 (
              bits "y1" 16 24
                (bits "y2" 16 24 (bits "tempADS1220" 16 16 (bits "tempSS" 16 16 end))))))))
      (field "readout_time" time_t (field "sequence_number" (int 4) (field "flags" (int 4) end))))
