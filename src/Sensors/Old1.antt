-- ===== src/Sensors/Old1.antt =====
-- Rows of a sensor table of inc/pueo/sensor_ids_compat.h.
use libpueorawdata.Prelude.{List, [], ◌∷◌}
use libpueorawdata.Sensors.Row.{Sensor, row, celsius, float, gauss, volts, watts}

unfoldable pub first_old_sensors : List Sensor
first_old_sensors =
    row "W1Temps" "ChargeContrHeatsink" float celsius
    ∷ row "W1Temps" "PowerBoxBaseplate" float celsius
    ∷ row "W1Temps" "24VVicor" float celsius
    ∷ row "W1Temps" "5VVicor" float celsius
    ∷ row "W1Temps" "4VVicor" float celsius
    ∷ row "W1Temps" "12V_AFlex" float celsius
    ∷ row "W1Temps" "12V_BFlex" float celsius
    ∷ row "W1Temps" "12V_CFlex" float celsius
    ∷ row "W1Temps" "StatRadPlateInt" float celsius
    ∷ row "W1Temps" "SideofOutboardFPB" float celsius
    ∷ row "W1Temps" "FrontofNavEncl" float celsius
    ∷ row "W1Temps" "FrontofHDAQCrate" float celsius
    ∷ row "W1Temps" "FrontofSciStack" float celsius
    ∷ row "W1Temps" "DynRadPlateInt" float celsius
    ∷ row "W1Temps" "TopofPowerFPB" float celsius
    ∷ row "W1Temps" "FrontofCPUCrate" float celsius
    ∷ row "W1Temps" "FrontofVDAQCrate" float celsius
    ∷ row "W1Temps" "TopofPowerBox" float celsius
    ∷ row "W1Temps" "PVActuator1" float celsius
    ∷ row "W1Temps" "PVActuator2" float celsius
    ∷ row "W1Temps" "LFActuator1" float celsius
    ∷ row "W1Temps" "LFActuator2" float celsius
    ∷ row "W1Temps" "StatRadPlateExt" float celsius
    ∷ row "W1Temps" "DynRadPlateExt" float celsius
    ∷ row "W1Temps" "MIELidExt" float celsius
    ∷ row "W1Temps" "BatteryBox1Face" float celsius
    ∷ row "W1Temps" "BatteryBox2Face" float celsius
    ∷ row "W1Temps" "SunSensorPhiSect7" float celsius
    ∷ row "W1Temps" "SunSensorPhiSect19" float celsius
    ∷ row "W1Temps" "LFOutwardofBoard4" float celsius
    ∷ row "W1Temps" "LFInwardofBoard6" float celsius
    ∷ row "W1Temps" "LFInwardofBoard3" float celsius
    ∷ row "W1Temps" "LFPowerBoard" float celsius
    ∷ row "W1Temps" "LFOutwardofBoard7" float celsius
    ∷ row "W1Temps" "LFInwardofBoard8" float celsius
    ∷ row "W1Temps" "LFOutwardofBoard1" float celsius
    ∷ row "W1Temps" "AMPA_186" float celsius
    ∷ row "W1Temps" "AMPA_223" float celsius
    ∷ row "W1Temps" "AMPA_011" float celsius
    ∷ row "W1Temps" "AMPA_073" float celsius
    ∷ row "W1Temps" "AMPA_181" float celsius
    ∷ row "W1Temps" "AMPA_028" float celsius
    ∷ row "W1Temps" "AMPA_064" float celsius
    ∷ row "W1Temps" "AMPA_179" float celsius
    ∷ row "W1Temps" "UpperIMU" float celsius
    ∷ row "W1Temps" "StarlinkDishyMount" float celsius
    ∷ row "W1Temps" "StarlinkPowerBox" float celsius
    ∷ row "W1Temps" "ToqueCorner" float celsius
    ∷ row "W1Temps" "AutoBelay" float celsius
    ∷ row "W1Temps" "AMPA_040" float celsius
    ∷ row "W1Temps" "AMPA_021" float celsius
    ∷ row "W1Temps" "AMPA_007" float celsius
    ∷ row "W1Temps" "AMPA_105" float celsius
    ∷ row "W1Temps" "AMPA_075" float celsius
    ∷ row "W1Temps" "AMPA_163" float celsius
    ∷ row "W1Temps" "AMPA_132" float celsius
    ∷ row "W1Temps" "AMPA_034" float celsius
    ∷ row "W1Temps" "AMPA_152" float celsius
    ∷ row "W1Temps" "AMPA_145" float celsius
    ∷ row "W1Temps" "AMPA_112" float celsius
    ∷ row "W1Temps" "AMPA_200" float celsius
    ∷ row "W1Temps" "AMPA_169" float celsius
    ∷ row "W1Temps" "AMPA_085" float celsius
    ∷ row "W1Temps" "AMPA_119" float celsius
    ∷ row "W1Temps" "AMPA_161" float celsius
    ∷ row "W1Temps" "AMPA_139" float celsius
    ∷ row "W1Temps" "AMPA_012" float celsius
    ∷ row "W1Temps" "AMPA_035" float celsius
    ∷ row "W1Temps" "AMPA_208" float celsius
    ∷ row "W1Temps" "AMPA_219" float celsius
    ∷ row "W1Temps" "AMPA_025" float celsius
    ∷ row "W1Temps" "AMPA_027" float celsius
    ∷ row "W1Temps" "AMPA_026" float celsius
    ∷ row "W1Temps" "AMPA_094" float celsius
    ∷ row "W1Temps" "AMPA_190" float celsius
    ∷ row "W1Temps" "AMPA_153" float celsius
    ∷ row "W1Temps" "AMPA_157" float celsius
    ∷ row "W1Temps" "AMPA_226" float celsius
    ∷ row "W1Temps" "AMPA_204" float celsius
    ∷ row "W1Temps" "AMPA_099" float celsius
    ∷ row "W1Temps" "AMPA_185" float celsius
    ∷ row "W1Temps" "AMPA_149" float celsius
    ∷ row "W1Temps" "AMPA_144" float celsius
    ∷ row "W1Temps" "AMPA_217" float celsius
    ∷ row "W1Temps" "AMPA_108" float celsius
    ∷ row "W1Temps" "PV1PhiSect" float celsius
    ∷ row "W1Temps" "PV5PhiSect" float celsius
    ∷ row "W1Temps" "PV4PhiSect" float celsius
    ∷ row "W1Temps" "PV3PhiSect" float celsius
    ∷ row "W1Temps" "PV7PhiSect" float celsius
    ∷ row "W1Temps" "PV2PhiSect" float celsius
    ∷ row "W1Temps" "PV6PhiSect" float celsius
    ∷ row "W1Temps" "PV8PhiSect" float celsius
    ∷ row "CPU" "Core10" float celsius
    ∷ row "CPU" "Core2" float celsius
    ∷ row "CPU" "Core9" float celsius
    ∷ row "CPU" "Core13" float celsius
    ∷ row "CPU" "Core12" float celsius
    ∷ row "CPU" "Core4" float celsius
    ∷ row "CPU" "Core5" float celsius
    ∷ row "CPU" "Core11" float celsius
    ∷ row "CPU" "Core1" float celsius
    ∷ row "CPU" "Core8" float celsius
    ∷ row "CPU" "Core3" float celsius
    ∷ row "CPU" "Core0" float celsius
    ∷ row "CPU" "Package0" float celsius
    ∷ row "CPU" "Ambient" float celsius
    ∷ row "CPU" "PCH" float celsius
    ∷ row "CPU" "LeftRail" float celsius
    ∷ row "CPU" "RightRail" float celsius
    ∷ row "CPU" "GPU" float celsius
    ∷ row "Mag" "B0" float gauss
    ∷ row "Mag" "B1" float gauss
    ∷ row "Mag" "B2" float gauss
    ∷ row "CC" "OutputPower" float watts
    ∷ row "CC" "InputPower" float watts
    ∷ row "CC" "MaxLastSweepPower" float watts
    ∷ row "CC" "PV" float volts
    ∷ row "CC" "VmpLastSweep" float volts
    ∷ row "CC" "VocLastSweep" float volts
    ∷ []
