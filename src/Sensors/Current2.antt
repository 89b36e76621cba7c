-- ===== src/Sensors/Current2.antt =====
-- Rows of a sensor table of inc/pueo/sensor_ids.h.
use libpueorawdata.Prelude.{List, [], ◌∷◌}
use libpueorawdata.Sensors.Row.{Sensor, row, amps, celsius, current, float, volts}

unfoldable pub last_sensors : List Sensor
last_sensors =
    row "RF" "RB5" float celsius
    ∷ row "RF" "RB6" float celsius
    ∷ row "DAQ" "V_TURF" float volts
    ∷ row "DAQ" "I_TURF" float amps
    ∷ row "DAQ" "T_RPU_TURF" float celsius
    ∷ row "DAQ" "T_APU_TURF" float celsius
    ∷ row "DAQ" "T_TURFIO_HL" float celsius
    ∷ row "DAQ" "T_TURFIO_HR" float celsius
    ∷ row "DAQ" "T_TURFIO_VL" float celsius
    ∷ row "DAQ" "T_TURFIO_VR" float celsius
    ∷ row "DAQ" "T_HS_SURF1_HL" float celsius
    ∷ row "DAQ" "T_HS_SURF2_HL" float celsius
    ∷ row "DAQ" "T_HS_SURF3_HL" float celsius
    ∷ row "DAQ" "T_HS_SURF4_HL" float celsius
    ∷ row "DAQ" "T_HS_SURF5_HL" float celsius
    ∷ row "DAQ" "T_HS_SURF6_HL" float celsius
    ∷ row "DAQ" "T_HS_SURF7_HL" float celsius
    ∷ row "DAQ" "T_HS_SURF1_HR" float celsius
    ∷ row "DAQ" "T_HS_SURF2_HR" float celsius
    ∷ row "DAQ" "T_HS_SURF3_HR" float celsius
    ∷ row "DAQ" "T_HS_SURF4_HR" float celsius
    ∷ row "DAQ" "T_HS_SURF5_HR" float celsius
    ∷ row "DAQ" "T_HS_SURF6_HR" float celsius
    ∷ row "DAQ" "T_HS_SURF7_HR" float celsius
    ∷ row "DAQ" "T_HS_SURF1_VL" float celsius
    ∷ row "DAQ" "T_HS_SURF2_VL" float celsius
    ∷ row "DAQ" "T_HS_SURF3_VL" float celsius
    ∷ row "DAQ" "T_HS_SURF4_VL" float celsius
    ∷ row "DAQ" "T_HS_SURF5_VL" float celsius
    ∷ row "DAQ" "T_HS_SURF6_VL" float celsius
    ∷ row "DAQ" "T_HS_SURF1_VR" float celsius
    ∷ row "DAQ" "T_HS_SURF2_VR" float celsius
    ∷ row "DAQ" "T_HS_SURF3_VR" float celsius
    ∷ row "DAQ" "T_HS_SURF4_VR" float celsius
    ∷ row "DAQ" "T_HS_SURF5_VR" float celsius
    ∷ row "DAQ" "T_HS_SURF6_VR" float celsius
    ∷ row "DAQ" "T_RPU_SURF1_HL" float celsius
    ∷ row "DAQ" "T_RPU_SURF2_HL" float celsius
    ∷ row "DAQ" "T_RPU_SURF3_HL" float celsius
    ∷ row "DAQ" "T_RPU_SURF4_HL" float celsius
    ∷ row "DAQ" "T_RPU_SURF5_HL" float celsius
    ∷ row "DAQ" "T_RPU_SURF6_HL" float celsius
    ∷ row "DAQ" "T_RPU_SURF7_HL" float celsius
    ∷ row "DAQ" "T_RPU_SURF1_HR" float celsius
    ∷ row "DAQ" "T_RPU_SURF2_HR" float celsius
    ∷ row "DAQ" "T_RPU_SURF3_HR" float celsius
    ∷ row "DAQ" "T_RPU_SURF4_HR" float celsius
    ∷ row "DAQ" "T_RPU_SURF5_HR" float celsius
    ∷ row "DAQ" "T_RPU_SURF6_HR" float celsius
    ∷ row "DAQ" "T_RPU_SURF7_HR" float celsius
    ∷ row "DAQ" "T_RPU_SURF1_VL" float celsius
    ∷ row "DAQ" "T_RPU_SURF2_VL" float celsius
    ∷ row "DAQ" "T_RPU_SURF3_VL" float celsius
    ∷ row "DAQ" "T_RPU_SURF4_VL" float celsius
    ∷ row "DAQ" "T_RPU_SURF5_VL" float celsius
    ∷ row "DAQ" "T_RPU_SURF6_VL" float celsius
    ∷ row "DAQ" "T_RPU_SURF1_VR" float celsius
    ∷ row "DAQ" "T_RPU_SURF2_VR" float celsius
    ∷ row "DAQ" "T_RPU_SURF3_VR" float celsius
    ∷ row "DAQ" "T_RPU_SURF4_VR" float celsius
    ∷ row "DAQ" "T_RPU_SURF5_VR" float celsius
    ∷ row "DAQ" "T_RPU_SURF6_VR" float celsius
    ∷ row "DAQ" "T_APU_SURF1_HL" float celsius
    ∷ row "DAQ" "T_APU_SURF2_HL" float celsius
    ∷ row "DAQ" "T_APU_SURF3_HL" float celsius
    ∷ row "DAQ" "T_APU_SURF4_HL" float celsius
    ∷ row "DAQ" "T_APU_SURF5_HL" float celsius
    ∷ row "DAQ" "T_APU_SURF6_HL" float celsius
    ∷ row "DAQ" "T_APU_SURF7_HL" float celsius
    ∷ row "DAQ" "T_APU_SURF1_HR" float celsius
    ∷ row "DAQ" "T_APU_SURF2_HR" float celsius
    ∷ row "DAQ" "T_APU_SURF3_HR" float celsius
    ∷ row "DAQ" "T_APU_SURF4_HR" float celsius
    ∷ row "DAQ" "T_APU_SURF5_HR" float celsius
    ∷ row "DAQ" "T_APU_SURF6_HR" float celsius
    ∷ row "DAQ" "T_APU_SURF7_HR" float celsius
    ∷ row "DAQ" "T_APU_SURF1_VL" float celsius
    ∷ row "DAQ" "T_APU_SURF2_VL" float celsius
    ∷ row "DAQ" "T_APU_SURF3_VL" float celsius
    ∷ row "DAQ" "T_APU_SURF4_VL" float celsius
    ∷ row "DAQ" "T_APU_SURF5_VL" float celsius
    ∷ row "DAQ" "T_APU_SURF6_VL" float celsius
    ∷ row "DAQ" "T_APU_SURF1_VR" float celsius
    ∷ row "DAQ" "T_APU_SURF2_VR" float celsius
    ∷ row "DAQ" "T_APU_SURF3_VR" float celsius
    ∷ row "DAQ" "T_APU_SURF4_VR" float celsius
    ∷ row "DAQ" "T_APU_SURF5_VR" float celsius
    ∷ row "DAQ" "T_APU_SURF6_VR" float celsius
    ∷ row "DAQ" "V_TURFIO_HL" float volts
    ∷ row "DAQ" "V_TURFIO_HR" float volts
    ∷ row "DAQ" "V_TURFIO_VL" float volts
    ∷ row "DAQ" "V_TURFIO_VR" float volts
    ∷ row "DAQ" "V_SURF1_HL" float volts
    ∷ row "DAQ" "V_SURF2_HL" float volts
    ∷ row "DAQ" "V_SURF3_HL" float volts
    ∷ row "DAQ" "V_SURF4_HL" float volts
    ∷ row "DAQ" "V_SURF5_HL" float volts
    ∷ row "DAQ" "V_SURF6_HL" float volts
    ∷ row "DAQ" "V_SURF7_HL" float volts
    ∷ row "DAQ" "V_SURF1_HR" float volts
    ∷ row "DAQ" "V_SURF2_HR" float volts
    ∷ row "DAQ" "V_SURF3_HR" float volts
    ∷ row "DAQ" "V_SURF4_HR" float volts
    ∷ row "DAQ" "V_SURF5_HR" float volts
    ∷ row "DAQ" "V_SURF6_HR" float volts
    ∷ row "DAQ" "V_SURF7_HR" float volts
    ∷ row "DAQ" "V_SURF1_VL" float volts
    ∷ row "DAQ" "V_SURF2_VL" float volts
    ∷ row "DAQ" "V_SURF3_VL" float volts
    ∷ row "DAQ" "V_SURF4_VL" float volts
    ∷ row "DAQ" "V_SURF5_VL" float volts
    ∷ row "DAQ" "V_SURF6_VL" float volts
    ∷ row "DAQ" "V_SURF1_VR" float volts
    ∷ row "DAQ" "V_SURF2_VR" float volts
    ∷ row "DAQ" "V_SURF3_VR" float volts
    ∷ row "DAQ" "V_SURF4_VR" float volts
    ∷ row "DAQ" "V_SURF5_VR" float volts
    ∷ row "DAQ" "V_SURF6_VR" float volts
    ∷ row "DAQ" "I_TURFIO_HL" float current
    ∷ row "DAQ" "I_TURFIO_HR" float current
    ∷ row "DAQ" "I_TURFIO_VL" float current
    ∷ row "DAQ" "I_TURFIO_VR" float current
    ∷ row "DAQ" "I_SURF1_HL" float current
    ∷ row "DAQ" "I_SURF2_HL" float current
    ∷ row "DAQ" "I_SURF3_HL" float current
    ∷ row "DAQ" "I_SURF4_HL" float current
    ∷ row "DAQ" "I_SURF5_HL" float current
    ∷ row "DAQ" "I_SURF6_HL" float current
    ∷ row "DAQ" "I_SURF7_HL" float current
    ∷ row "DAQ" "I_SURF1_HR" float current
    ∷ row "DAQ" "I_SURF2_HR" float current
    ∷ row "DAQ" "I_SURF3_HR" float current
    ∷ row "DAQ" "I_SURF4_HR" float current
    ∷ row "DAQ" "I_SURF5_HR" float current
    ∷ row "DAQ" "I_SURF6_HR" float current
    ∷ row "DAQ" "I_SURF7_HR" float current
    ∷ row "DAQ" "I_SURF1_VL" float current
    ∷ row "DAQ" "I_SURF2_VL" float current
    ∷ row "DAQ" "I_SURF3_VL" float current
    ∷ row "DAQ" "I_SURF4_VL" float current
    ∷ row "DAQ" "I_SURF5_VL" float current
    ∷ row "DAQ" "I_SURF6_VL" float current
    ∷ row "DAQ" "I_SURF1_VR" float current
    ∷ row "DAQ" "I_SURF2_VR" float current
    ∷ row "DAQ" "I_SURF3_VR" float current
    ∷ row "DAQ" "I_SURF4_VR" float current
    ∷ row "DAQ" "I_SURF5_VR" float current
    ∷ row "DAQ" "I_SURF6_VR" float current
    ∷ []
