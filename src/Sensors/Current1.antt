-- ===== src/Sensors/Current1.antt =====
-- Rows of a sensor table of inc/pueo/sensor_ids.h.
use libpueorawdata.Prelude.{List, [], ◌∷◌}
use libpueorawdata.Sensors.Row.{
  Sensor, row, amps, bitmask, celsius, float, gauss, unsigned, volts, watts,
}

unfoldable pub first_sensors : List Sensor
first_sensors =
    row "W1Temps" "ChargeCntr_Heatsink_1W_Ch0" float celsius
    ∷ row "W1Temps" "PowerBox_Baseplate_1W_Ch0" float celsius
    ∷ row "W1Temps" "24V_Vicor_1W_Ch0" float celsius
    ∷ row "W1Temps" "5V_Vicor_1W_Ch0" float celsius
    ∷ row "W1Temps" "4V_Vicor_1W_Ch0" float celsius
    ∷ row "W1Temps" "12V_A_Flex_1W_Ch0" float celsius
    ∷ row "W1Temps" "12V_B_Flex_1W_Ch0" float celsius
    ∷ row "W1Temps" "12V_C_Flex_1W_Ch0" float celsius
    ∷ row "W1Temps" "SFC_NIC_1W_Ch1" float celsius
    ∷ row "W1Temps" "StaticRadPlate_Int_1W_Ch1" float celsius
    ∷ row "W1Temps" "OutboardFPB_Side_1W_Ch1" float celsius
    ∷ row "W1Temps" "NavEncl_Front_1W_Ch1" float celsius
    ∷ row "W1Temps" "HDAQCrate_Front_1W_Ch1" float celsius
    ∷ row "W1Temps" "SciStackEncl_Front_1W_Ch1" float celsius
    ∷ row "W1Temps" "DynamicRadPlate_Int_1W_Ch1" float celsius
    ∷ row "W1Temps" "PowerFPB_Top_1W_Ch1" float celsius
    ∷ row "W1Temps" "CPUCrate_Front_1W_Ch1" float celsius
    ∷ row "W1Temps" "VDAQCrate_Front_1W_Ch1" float celsius
    ∷ row "W1Temps" "PowerBox_Top_1W_Ch1" float celsius
    ∷ row "W1Temps" "PVActuator_2A_1W_Ch1" float celsius
    ∷ row "W1Temps" "PVActuator_1A_1W_Ch1" float celsius
    ∷ row "W1Temps" "LFActuator_2B_1W_Ch1" float celsius
    ∷ row "W1Temps" "LFActuator_1B_1W_Ch1" float celsius
    ∷ row "W1Temps" "StaticRadPlate_Ext_1W_Ch1" float celsius
    ∷ row "W1Temps" "DynamicRadPlate_Ext_1W_Ch1" float celsius
    ∷ row "W1Temps" "MIELid_Ext_1W_Ch1" float celsius
    ∷ row "W1Temps" "BatteryBox1_Front_1W_Ch1" float celsius
    ∷ row "W1Temps" "BatteryBox2_Front_1W_Ch1" float celsius
    ∷ row "W1Temps" "SunSensor_Phi07_1W_Ch1" float celsius
    ∷ row "W1Temps" "SunSensor_Phi19_1W_Ch1" float celsius
    ∷ row "W1Temps" "LFRxBox_Internal1_1W_Ch1" float celsius
    ∷ row "W1Temps" "LFRxBox_Internal2_1W_Ch1" float celsius
    ∷ row "W1Temps" "LFRxBox_Internal3_1W_Ch1" float celsius
    ∷ row "W1Temps" "LFRxBox_Internal4_1W_Ch1" float celsius
    ∷ row "W1Temps" "LFRxBox_Internal5_1W_Ch1" float celsius
    ∷ row "W1Temps" "LFRxBox_Internal6_1W_Ch1" float celsius
    ∷ row "W1Temps" "LFRxBox_Internal7_1W_Ch1" float celsius
    ∷ row "W1Temps" "Antenna0101_A186_1W_Ch2" float celsius
    ∷ row "W1Temps" "Antenna0104_A223_1W_Ch2" float celsius
    ∷ row "W1Temps" "Antenna0107_A011_1W_Ch2" float celsius
    ∷ row "W1Temps" "Antenna0110_A073_1W_Ch2" float celsius
    ∷ row "W1Temps" "Antenna0113_A181_1W_Ch2" float celsius
    ∷ row "W1Temps" "Antenna0116_A028_1W_Ch2" float celsius
    ∷ row "W1Temps" "Antenna0119_A064_1W_Ch2" float celsius
    ∷ row "W1Temps" "Antenna0122_A179_1W_Ch2" float celsius
    ∷ row "W1Temps" "UpperIMU_Boreas_1W_Ch2" float celsius
    ∷ row "W1Temps" "StarlinkDishyMount_1W_Ch2" float celsius
    ∷ row "W1Temps" "StarlinkPowerBox_1W_Ch2" float celsius
    ∷ row "W1Temps" "ToqueCorner_Phi04_1W_Ch2" float celsius
    ∷ row "W1Temps" "AutoBelay_1W_Ch2" float celsius
    ∷ row "W1Temps" "Antenna0201_A040_1W_Ch3" float celsius
    ∷ row "W1Temps" "Antenna0203_A021_1W_Ch3" float celsius
    ∷ row "W1Temps" "Antenna0205_A007_1W_Ch3" float celsius
    ∷ row "W1Temps" "Antenna0207_A105_1W_Ch3" float celsius
    ∷ row "W1Temps" "Antenna0308_A075_1W_Ch3" float celsius
    ∷ row "W1Temps" "Antenna0310_A163_1W_Ch3" float celsius
    ∷ row "W1Temps" "Antenna0312_A132_1W_Ch3" float celsius
    ∷ row "W1Temps" "Antenna0314_A034_1W_Ch3" float celsius
    ∷ row "W1Temps" "Antenna0417_A152_1W_Ch3" float celsius
    ∷ row "W1Temps" "Antenna0419_A145_1W_Ch3" float celsius
    ∷ row "W1Temps" "Antenna0421_A112_1W_Ch3" float celsius
    ∷ row "W1Temps" "Antenna0423_A200_1W_Ch3" float celsius
    ∷ row "W1Temps" "Antenna0209_A169_1W_Ch4" float celsius
    ∷ row "W1Temps" "Antenna0211_A085_1W_Ch4" float celsius
    ∷ row "W1Temps" "Antenna0213_A119_1W_Ch4" float celsius
    ∷ row "W1Temps" "Antenna0215_A161_1W_Ch4" float celsius
    ∷ row "W1Temps" "Antenna0316_A139_1W_Ch4" float celsius
    ∷ row "W1Temps" "Antenna0318_A012_1W_Ch4" float celsius
    ∷ row "W1Temps" "Antenna0320_A035_1W_Ch4" float celsius
    ∷ row "W1Temps" "Antenna0322_A208_1W_Ch4" float celsius
    ∷ row "W1Temps" "Antenna0401_A219_1W_Ch4" float celsius
    ∷ row "W1Temps" "Antenna0403_A025_1W_Ch4" float celsius
    ∷ row "W1Temps" "Antenna0405_A027_1W_Ch4" float celsius
    ∷ row "W1Temps" "Antenna0407_A026_1W_Ch4" float celsius
    ∷ row "W1Temps" "Antenna0217_A094_1W_Ch5" float celsius
    ∷ row "W1Temps" "Antenna0219_A190_1W_Ch5" float celsius
    ∷ row "W1Temps" "Antenna0221_A153_1W_Ch5" float celsius
    ∷ row "W1Temps" "Antenna0223_A157_1W_Ch5" float celsius
    ∷ row "W1Temps" "Antenna0324_A226_1W_Ch5" float celsius
    ∷ row "W1Temps" "Antenna0302_A204_1W_Ch5" float celsius
    ∷ row "W1Temps" "Antenna0304_A099_1W_Ch5" float celsius
    ∷ row "W1Temps" "Antenna0306_A185_1W_Ch5" float celsius
    ∷ row "W1Temps" "Antenna0409_A149_1W_Ch5" float celsius
    ∷ row "W1Temps" "Antenna0411_A144_1W_Ch5" float celsius
    ∷ row "W1Temps" "Antenna0413_A217_1W_Ch5" float celsius
    ∷ row "W1Temps" "Antenna0415_A108_1W_Ch5" float celsius
    ∷ row "W1Temps" "PV1_Phi01_1W_Ch6" float celsius
    ∷ row "W1Temps" "PV5_Phi13_1W_Ch6" float celsius
    ∷ row "W1Temps" "PV6_Phi16_1W_Ch6" float celsius
    ∷ row "W1Temps" "PV7_Phi19_1W_Ch6" float celsius
    ∷ row "W1Temps" "PV3_Phi07_1W_Ch6" float celsius
    ∷ row "W1Temps" "PV4_Phi10_1W_Ch6" float celsius
    ∷ row "W1Temps" "PV8_Phi22_1W_Ch6" float celsius
    ∷ row "W1Temps" "PV2_Phi04_1W_Ch6" float celsius
    ∷ row "CPU" "Core10" float celsius
    ∷ row "CPU" "Core2" float celsius
    ∷ row "CPU" "Core9" float celsius
    ∷ row "CPU" "Core13" float celsius
    ∷ row "CPU" "Core12" float celsius
    ∷ row "CPU" "Core4" float celsius
    ∷ row "CPU" "Core5" float celsius
    ∷ row "CPU" "Core11" float celsius
    ∷ row "CPU" "Core1" float celsius
    ∷ row "CPU" "Core8" float celsius
    ∷ row "CPU" "Core3" float celsius
    ∷ row "CPU" "Core0" float celsius
    ∷ row "CPU" "Package0" float celsius
    ∷ row "CPU" "Ambient" float celsius
    ∷ row "CPU" "PCH" float celsius
    ∷ row "CPU" "LeftRail" float celsius
    ∷ row "CPU" "RightRail" float celsius
    ∷ row "CPU" "GPU" float celsius
    ∷ row "Mag" "B0" float gauss
    ∷ row "Mag" "B1" float gauss
    ∷ row "Mag" "B2" float gauss
    ∷ row "CC" "OutputPower" float watts
    ∷ row "CC" "InputPower" float watts
    ∷ row "CC" "MaxLastSweepPower" float watts
    ∷ row "CC" "PV" float volts
    ∷ row "CC" "VmpLastSweep" float volts
    ∷ row "CC" "VocLastSweep" float volts
    ∷ row "CC" "FilteredBattVoltage" float volts
    ∷ row "CC" "BatteryMin" float volts
    ∷ row "CC" "BatteryMax" float volts
    ∷ row "CC" "HoursOn" float volts
    ∷ row "CC" "FaultBits" unsigned bitmask
    ∷ row "CC" "ChargingCurrent" float amps
    ∷ row "CC" "TLocal" float celsius
    ∷ row "CC" "TRemote" float celsius
    ∷ row "HK" "24V" float volts
    ∷ row "HK" "BATTERY" float volts
    ∷ row "HK" "PV" float volts
    ∷ row "HK" "12V_C_V" float volts
    ∷ row "HK" "RF_OFF_INV" float volts
    ∷ row "HK" "12V_B_V" float volts
    ∷ row "HK" "12V_A_V" float volts
    ∷ row "HK" "12V_rail" float volts
    ∷ row "HK" "3_3V_rail" float volts
    ∷ row "HK" "12V_D_V" float volts
    ∷ row "HK" "12V_C_I" float amps
    ∷ row "HK" "12V_B_I" float amps
    ∷ row "HK" "12V_A_I" float amps
    ∷ row "HK" "5V_Vicor_V" float volts
    ∷ row "HK" "5V_Vicor_I" float amps
    ∷ row "HK" "4V_Vicor_V" float volts
    ∷ row "HK" "4V_Vicor_I" float amps
    ∷ row "RF" "RB1" float celsius
    ∷ row "RF" "RB2" float celsius
    ∷ row "RF" "RB3" float celsius
    ∷ row "RF" "RB4" float celsius
    ∷ []
