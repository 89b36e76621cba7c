-- ===== src/Datatype.antt =====
-- The packet types: PUEO_IO_DISPATCH_TABLE of inc/pueo/rawio.h with the codes of
-- `pueo_datatype_t` and the structs and version numbers of inc/pueo/rawdata.h.
pub mod Codes
pub mod Ver
use libpueorawdata.Prelude.{ℕ, Option, none, some, List, [], ◌∷◌, ◌==◌, if◌then◌else◌, String}
use libpueorawdata.Datatype.Ver.{
  full_waveforms_ver, single_waveform_ver, nav_att_ver, nav_sat_ver, nav_pos_ver, sensors_telem_ver,
  sensors_disk_ver, slow_ver, cmd_echo_ver, ss_ver, timemark_ver, startracker_ver, logs_ver,
  daq_hsk_ver, daq_hsk_summary_ver, file_download_ver, saved_priorities_ver, prio_status_ver,
}
use libpueorawdata.Layout.{Ty, sizeof, offsetof}
use libpueorawdata.Formats.Event.{full_waveforms_t, single_waveform_t, saved_priorities_t}
use libpueorawdata.Formats.Sensor.{sensors_telem_t, sensors_disk_t}
use libpueorawdata.Formats.Nav.{nav_att_t, nav_sat_t, nav_pos_t, timemark_t, startracker_t, ss_t}
use libpueorawdata.Formats.Command.{cmd_echo_t, logs_t, file_download_t, prio_status_t}
use libpueorawdata.Formats.Slow.{slow_t}
use libpueorawdata.Formats.Daq.{daq_hsk_t, daq_hsk_summary_t}

-- One constructor for each row of the dispatch table, in its order.
pub data Kind : Type 0 where
  full_waveforms single_waveform nav_att nav_sat nav_pos sensors_telem sensors_disk : Kind
  slow cmd_echo ss timemark startracker logs daq_hsk daq_hsk_summary file_download : Kind
  saved_priorities prio_status : Kind

unfoldable pub dispatch_table : List Kind
dispatch_table =
    full_waveforms ∷ single_waveform ∷ nav_att ∷ nav_sat ∷ nav_pos ∷ sensors_telem ∷ sensors_disk
    ∷ slow ∷ cmd_echo ∷ ss ∷ timemark ∷ startracker ∷ logs ∷ daq_hsk ∷ daq_hsk_summary
    ∷ file_download ∷ saved_priorities ∷ prio_status ∷ []

-- `pueo_datatype_t`. The codes of no row, PUEO_PACKET_INVALID 0, PUEO_PACKET_HEAD 0x0ead and
-- PUEO_ENCODED_WAVEFORM 0xabcd, are left to the default case of every switch.
unfoldable pub code : Kind → ℕ
code full_waveforms = 0xda7a
code single_waveform = 0xea7a
code nav_att = 0xa771
code nav_sat = 0x5a75
code nav_pos = 0x1a75
code sensors_telem = 0xb1de
code sensors_disk = 0xcb1d
code slow = 0x510e
code cmd_echo = 0xecc0
code ss = 0x501a
code timemark = 0xc10c
code startracker = 0xe71c
code logs = 0x7a11
code daq_hsk = 0xdacc
code daq_hsk_summary = 0xdac5
code file_download = 0xd1d1
code saved_priorities = 0x7135
code prio_status = 0x5cad

-- A `switch` whose cases are the rows of a table: the first case with the code is taken.
unfoldable pub find_row : ℕ → List Kind → Option Kind
find_row c [] = none
find_row c (k ∷ ks) = if c == code k then some k else find_row c ks

unfoldable pub of_code : ℕ → Option Kind
unfolding find_row dispatch_table code
of_code c = find_row c dispatch_table

-- `PUEO_X_VER`, the version that is written.
unfoldable pub latest_version : Kind → ℕ
latest_version full_waveforms = full_waveforms_ver
latest_version single_waveform = single_waveform_ver
latest_version nav_att = nav_att_ver
latest_version nav_sat = nav_sat_ver
latest_version nav_pos = nav_pos_ver
latest_version sensors_telem = sensors_telem_ver
latest_version sensors_disk = sensors_disk_ver
latest_version slow = slow_ver
latest_version cmd_echo = cmd_echo_ver
latest_version ss = ss_ver
latest_version timemark = timemark_ver
latest_version startracker = startracker_ver
latest_version logs = logs_ver
latest_version daq_hsk = daq_hsk_ver
latest_version daq_hsk_summary = daq_hsk_summary_ver
latest_version file_download = file_download_ver
latest_version saved_priorities = saved_priorities_ver
latest_version prio_status = prio_status_ver

-- `pueo_X_t`.
unfoldable pub struct_of : Kind → Ty
unfolding full_waveforms_t single_waveform_t nav_att_t nav_sat_t nav_pos_t sensors_telem_t
    sensors_disk_t slow_t cmd_echo_t ss_t timemark_t startracker_t logs_t daq_hsk_t
    daq_hsk_summary_t file_download_t saved_priorities_t prio_status_t
struct_of full_waveforms = full_waveforms_t
struct_of single_waveform = single_waveform_t
struct_of nav_att = nav_att_t
struct_of nav_sat = nav_sat_t
struct_of nav_pos = nav_pos_t
struct_of sensors_telem = sensors_telem_t
struct_of sensors_disk = sensors_disk_t
struct_of slow = slow_t
struct_of cmd_echo = cmd_echo_t
struct_of ss = ss_t
struct_of timemark = timemark_t
struct_of startracker = startracker_t
struct_of logs = logs_t
struct_of daq_hsk = daq_hsk_t
struct_of daq_hsk_summary = daq_hsk_summary_t
struct_of file_download = file_download_t
struct_of saved_priorities = saved_priorities_t
struct_of prio_status = prio_status_t

-- `sizeof(pueo_X_t)`, and `offsetof(pueo_X_t, member)`.
unfoldable pub size_of : Kind → ℕ
unfolding struct_of sizeof
size_of k = sizeof (struct_of k)

unfoldable pub member_at : Kind → String → ℕ
unfolding struct_of offsetof
member_at k m = offsetof (struct_of k) m
