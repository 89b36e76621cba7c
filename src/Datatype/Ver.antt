-- ===== src/Datatype/Ver.antt =====
-- The version macros of inc/pueo/rawdata.h.
use libpueorawdata.Prelude.{ℕ}

abbrev pub full_waveforms_ver : ℕ
full_waveforms_ver = 1

abbrev pub single_waveform_ver : ℕ
single_waveform_ver = 2

abbrev pub nav_att_ver : ℕ
nav_att_ver = 0

abbrev pub nav_sat_ver : ℕ
nav_sat_ver = 0

abbrev pub nav_pos_ver : ℕ
nav_pos_ver = 0

abbrev pub sensors_telem_ver : ℕ
sensors_telem_ver = 1

abbrev pub sensors_disk_ver : ℕ
sensors_disk_ver = 1

abbrev pub slow_ver : ℕ
slow_ver = 1

abbrev pub cmd_echo_ver : ℕ
cmd_echo_ver = 0

abbrev pub ss_ver : ℕ
ss_ver = 0

abbrev pub timemark_ver : ℕ
timemark_ver = 0

abbrev pub startracker_ver : ℕ
startracker_ver = 0

abbrev pub logs_ver : ℕ
logs_ver = 0

abbrev pub daq_hsk_ver : ℕ
daq_hsk_ver = 3

abbrev pub daq_hsk_summary_ver : ℕ
daq_hsk_summary_ver = 2

abbrev pub file_download_ver : ℕ
file_download_ver = 0

abbrev pub saved_priorities_ver : ℕ
saved_priorities_ver = 0

abbrev pub prio_status_ver : ℕ
prio_status_ver = 0
