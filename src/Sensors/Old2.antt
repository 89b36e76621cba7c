-- ===== src/Sensors/Old2.antt =====
-- Rows of a sensor table of inc/pueo/sensor_ids_compat.h.
use libpueorawdata.Prelude.{List, [], ◌∷◌}
use libpueorawdata.Sensors.Row.{Sensor, row, amps, bitmask, celsius, float, unsigned, volts}

unfoldable pub last_old_sensors : List Sensor
last_old_sensors =
    row "CC" "FilteredBattVoltage" float volts
    ∷ row "CC" "BatteryMin" float volts
    ∷ row "CC" "BatteryMax" float volts
    ∷ row "CC" "HoursOn" float volts
    ∷ row "CC" "FaultBits" unsigned bitmask
    ∷ row "CC" "ChargingCurrent" float amps
    ∷ row "CC" "TLocal" float celsius
    ∷ row "CC" "TRemote" float celsius
    ∷ row "HK" "24V" float volts
    ∷ row "HK" "BATTERY" float volts
    ∷ row "HK" "PV" float volts
    ∷ row "HK" "12V_C_V" float volts
    ∷ row "HK" "RF_OFF_INV" float volts
    ∷ row "HK" "12V_B_V" float volts
    ∷ row "HK" "12V_A_V" float volts
    ∷ row "HK" "12V_rail" float volts
    ∷ row "HK" "3_3V_rail" float volts
    ∷ row "HK" "12V_D_V" float volts
    ∷ row "HK" "12V_C_I" float amps
    ∷ row "HK" "12V_B_I" float amps
    ∷ row "HK" "12V_A_I" float amps
    ∷ row "HK" "5V_Vicor_V" float volts
    ∷ row "HK" "5V_Vicor_I" float amps
    ∷ row "HK" "4V_Vicor_V" float volts
    ∷ row "HK" "4V_Vicor_I" float amps
    ∷ row "RF" "RB1" float celsius
    ∷ row "RF" "RB2" float celsius
    ∷ row "RF" "RB3" float celsius
    ∷ row "RF" "RB4" float celsius
    ∷ row "RF" "RB5" float celsius
    ∷ row "RF" "RB6" float celsius
    ∷ row "DAQ" "V_TURF" float volts
    ∷ row "DAQ" "I_TURF" float amps
    ∷ row "DAQ" "T_RPU_TURF" float celsius
    ∷ row "DAQ" "T_APU_TURF" float celsius
    ∷ row "DAQ" "T_TURFIO_HL" float celsius
    ∷ row "DAQ" "T_TURFIO_HR" float celsius
    ∷ row "DAQ" "T_TURFIO_VL" float celsius
    ∷ row "DAQ" "T_TURFIO_VR" float celsius
    ∷ row "DAQ" "T_HS_SURF1_HL" float celsius
    ∷ row "DAQ" "T_HS_SURF2_HL" float celsius
    ∷ row "DAQ" "T_HS_SURF3_HL" float celsius
    ∷ row "DAQ" "T_HS_SURF4_HL" float celsius
    ∷ row "DAQ" "T_HS_SURF5_HL" float celsius
    ∷ row "DAQ" "T_HS_SURF6_HL" float celsius
    ∷ row "DAQ" "T_HS_SURF7_HL" float celsius
    ∷ row "DAQ" "T_HS_SURF1_HR" float celsius
    ∷ row "DAQ" "T_HS_SURF2_HR" float celsius
    ∷ row "DAQ" "T_HS_SURF3_HR" float celsius
    ∷ row "DAQ" "T_HS_SURF4_HR" float celsius
    ∷ row "DAQ" "T_HS_SURF5_HR" float celsius
    ∷ row "DAQ" "T_HS_SURF6_HR" float celsius
    ∷ row "DAQ" "T_HS_SURF7_HR" float celsius
    ∷ row "DAQ" "T_HS_SURF1_VL" float celsius
    ∷ row "DAQ" "T_HS_SURF2_VL" float celsius
    ∷ row "DAQ" "T_HS_SURF3_VL" float celsius
    ∷ row "DAQ" "T_HS_SURF4_VL" float celsius
    ∷ row "DAQ" "T_HS_SURF5_VL" float celsius
    ∷ row "DAQ" "T_HS_SURF6_VL" float celsius
    ∷ row "DAQ" "T_HS_SURF1_VR" float celsius
    ∷ row "DAQ" "T_HS_SURF2_VR" float celsius
    ∷ row "DAQ" "T_HS_SURF3_VR" float celsius
    ∷ row "DAQ" "T_HS_SURF4_VR" float celsius
    ∷ row "DAQ" "T_HS_SURF5_VR" float celsius
    ∷ row "DAQ" "T_HS_SURF6_VR" float celsius
    ∷ row "DAQ" "T_RPU_SURF1_HL" float celsius
    ∷ row "DAQ" "T_RPU_SURF2_HL" float celsius
    ∷ row "DAQ" "T_RPU_SURF3_HL" float celsius
    ∷ row "DAQ" "T_RPU_SURF4_HL" float celsius
    ∷ row "DAQ" "T_RPU_SURF5_HL" float celsius
    ∷ row "DAQ" "T_RPU_SURF6_HL" float celsius
    ∷ row "DAQ" "T_RPU_SURF7_HL" float celsius
    ∷ row "DAQ" "T_RPU_SURF1_HR" float celsius
    ∷ row "DAQ" "T_RPU_SURF2_HR" float celsius
    ∷ row "DAQ" "T_RPU_SURF3_HR" float celsius
    ∷ row "DAQ" "T_RPU_SURF4_HR" float celsius
    ∷ row "DAQ" "T_RPU_SURF5_HR" float celsius
    ∷ row "DAQ" "T_RPU_SURF6_HR" float celsius
    ∷ row "DAQ" "T_RPU_SURF7_HR" float celsius
    ∷ row "DAQ" "T_RPU_SURF1_VL" float celsius
    ∷ row "DAQ" "T_RPU_SURF2_VL" float celsius
    ∷ row "DAQ" "T_RPU_SURF3_VL" float celsius
    ∷ row "DAQ" "T_RPU_SURF4_VL" float celsius
    ∷ row "DAQ" "T_RPU_SURF5_VL" float celsius
    ∷ row "DAQ" "T_RPU_SURF6_VL" float celsius
    ∷ row "DAQ" "T_RPU_SURF1_VR" float celsius
    ∷ row "DAQ" "T_RPU_SURF2_VR" float celsius
    ∷ row "DAQ" "T_RPU_SURF3_VR" float celsius
    ∷ row "DAQ" "T_RPU_SURF4_VR" float celsius
    ∷ row "DAQ" "T_RPU_SURF5_VR" float celsius
    ∷ row "DAQ" "T_RPU_SURF6_VR" float celsius
    ∷ row "DAQ" "T_APU_SURF1_HL" float celsius
    ∷ row "DAQ" "T_APU_SURF2_HL" float celsius
    ∷ row "DAQ" "T_APU_SURF3_HL" float celsius
    ∷ row "DAQ" "T_APU_SURF4_HL" float celsius
    ∷ row "DAQ" "T_APU_SURF5_HL" float celsius
    ∷ row "DAQ" "T_APU_SURF6_HL" float celsius
    ∷ row "DAQ" "T_APU_SURF7_HL" float celsius
    ∷ row "DAQ" "T_APU_SURF1_HR" float celsius
    ∷ row "DAQ" "T_APU_SURF2_HR" float celsius
    ∷ row "DAQ" "T_APU_SURF3_HR" float celsius
    ∷ row "DAQ" "T_APU_SURF4_HR" float celsius
    ∷ row "DAQ" "T_APU_SURF5_HR" float celsius
    ∷ row "DAQ" "T_APU_SURF6_HR" float celsius
    ∷ row "DAQ" "T_APU_SURF7_HR" float celsius
    ∷ row "DAQ" "T_APU_SURF1_VL" float celsius
    ∷ row "DAQ" "T_APU_SURF2_VL" float celsius
    ∷ row "DAQ" "T_APU_SURF3_VL" float celsius
    ∷ row "DAQ" "T_APU_SURF4_VL" float celsius
    ∷ row "DAQ" "T_APU_SURF5_VL" float celsius
    ∷ row "DAQ" "T_APU_SURF6_VL" float celsius
    ∷ row "DAQ" "T_APU_SURF1_VR" float celsius
    ∷ row "DAQ" "T_APU_SURF2_VR" float celsius
    ∷ row "DAQ" "T_APU_SURF3_VR" float celsius
    ∷ row "DAQ" "T_APU_SURF4_VR" float celsius
    ∷ row "DAQ" "T_APU_SURF5_VR" float celsius
    ∷ row "DAQ" "T_APU_SURF6_VR" float celsius
    ∷ []
