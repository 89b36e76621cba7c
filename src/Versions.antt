-- ===== src/Versions.antt =====
-- src/rawio_versions.c: the size of each version of each packet type.
pub mod Bounds
pub mod Members
use libpueorawdata.Prelude.{ℕ, List, [], ◌∷◌, map, ltb, if◌then◌else◌, get_or}
use libpueorawdata.Prelude.Int.{ℤ, pos, negsuc}
use libpueorawdata.Layout.{Ty, sizeof}
use libpueorawdata.Datatype.{
  Kind, full_waveforms, single_waveform, sensors_telem, sensors_disk, slow, daq_hsk,
  daq_hsk_summary, latest_version, struct_of,
}
use libpueorawdata.Formats.Event.{full_waveforms_t, single_waveform_t}
use libpueorawdata.Formats.Sensor.{sensors_telem_t, sensors_disk_t}
use libpueorawdata.Formats.Slow.{slow_t}
use libpueorawdata.Formats.Daq.{daq_hsk_t, daq_hsk_summary_t}
use libpueorawdata.Formats.Old.Event.{
  full_waveforms_v0_t, single_waveform_v0_t, single_waveform_v1_t, slow_v0_t,
}
use libpueorawdata.Formats.Old.DaqHsk.{daq_hsk_v0_t, daq_hsk_v1_t, daq_hsk_v2_t}
use libpueorawdata.Formats.Old.DaqHskSummary.{daq_hsk_summary_v0_t, daq_hsk_summary_v1_t}

-- The structs `pueo_X_v0_t`, `pueo_X_v1_t`, …; the last is `pueo_X_t`.
unfoldable pub versions_of : Kind → List Ty
unfolding struct_of daq_hsk_summary_v0_t daq_hsk_summary_v1_t daq_hsk_v0_t daq_hsk_v1_t daq_hsk_v2_t
    full_waveforms_v0_t single_waveform_v0_t single_waveform_v1_t slow_v0_t full_waveforms_t
    single_waveform_t sensors_telem_t sensors_disk_t slow_t daq_hsk_t daq_hsk_summary_t
versions_of full_waveforms = full_waveforms_v0_t ∷ full_waveforms_t ∷ []
versions_of single_waveform = single_waveform_v0_t ∷ single_waveform_v1_t ∷ single_waveform_t ∷ []
versions_of sensors_telem = sensors_telem_t ∷ sensors_telem_t ∷ []
versions_of sensors_disk = sensors_disk_t ∷ sensors_disk_t ∷ []
versions_of slow = slow_v0_t ∷ slow_t ∷ []
versions_of daq_hsk = daq_hsk_v0_t ∷ daq_hsk_v1_t ∷ daq_hsk_v2_t ∷ daq_hsk_t ∷ []
versions_of daq_hsk_summary = daq_hsk_summary_v0_t ∷ daq_hsk_summary_v1_t ∷ daq_hsk_summary_t ∷ []
versions_of k = struct_of k ∷ []

-- `pueo_X_size_table`.
unfoldable pub size_table : Kind → List ℕ
unfolding versions_of sizeof
size_table k = map sizeof (versions_of k)

-- `pueo_X_size`: -1 for a version that is not known. A version here is never negative, since it
-- comes from the unsigned field of a header or from PUEO_X_VER.
unfoldable pub packet_size : Kind → ℕ → ℤ
unfolding size_table latest_version
packet_size k ver =
    if ltb (latest_version k) ver then negsuc 0 else pos (get_or (size_table k) ver 0)
