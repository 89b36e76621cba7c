-- ===== src/Versions/Members.antt =====
-- The members of earlier versions in the current structs: SIMPLE_PUEO_IO_IMPL of src/rawio_packets.c
-- asks that they stay where they are.
use libpueorawdata.Prelude.{ℕ, zero, suc, ◌≤◌, ◌≡◌, ◌≢◌, refl, true, some, String, get_or, arith}
use libpueorawdata.Layout.{Ty, Fields, int, struct, end, bit_offset}
use libpueorawdata.Layout.Evolution.{extends, extends-bit_offset}
use libpueorawdata.Datatype.{
  Kind, full_waveforms, single_waveform, sensors_telem, sensors_disk, slow, daq_hsk,
  daq_hsk_summary, latest_version, struct_of,
}
use libpueorawdata.Versions.{versions_of}
use libpueorawdata.Packets.Simple.Laws.{is_simple}

abbrev pub members : Ty → Fields
members (struct fs) = fs
members _ = end

-- The struct of a version.
unfoldable pub version_struct : Kind → ℕ → Ty
unfolding versions_of
version_struct k ver = get_or (versions_of k) ver (int 0)

extends_current :
    (k : Kind) (ver : ℕ)
    → is_simple k ≡ true
    → k ≢ slow
    → ver ≤ latest_version k
    → extends (members (version_struct k ver)) (members (struct_of k)) ≡ true
unfolding extends version_struct latest_version
extends_current slow ver simple other known = absurd (other refl)
extends_current full_waveforms ver simple other known = cc
extends_current single_waveform ver simple other known = cc
extends_current sensors_telem ver simple other known = cc
extends_current sensors_disk ver simple other known = cc
extends_current daq_hsk zero simple other known = refl
extends_current daq_hsk (suc zero) simple other known = refl
extends_current daq_hsk (suc (suc zero)) simple other known = refl
extends_current daq_hsk (suc (suc (suc zero))) simple other known = refl
extends_current daq_hsk (suc (suc (suc (suc ver)))) simple other known = absurd (omega arith)
extends_current daq_hsk_summary zero simple other known = refl
extends_current daq_hsk_summary (suc zero) simple other known = refl
extends_current daq_hsk_summary (suc (suc zero)) simple other known = refl
extends_current daq_hsk_summary (suc (suc (suc ver))) simple other known = absurd (omega arith)
extends_current _ zero simple other known = refl
extends_current _ (suc ver) simple other known = absurd (omega arith)

-- For every type of SIMPLE_PUEO_IO_IMPL but slow, a member of any earlier version's struct stands
-- at the same bit of the current struct.
pub version_members :
    (k : Kind) (ver : ℕ) (m : String) (at : ℕ)
    → is_simple k ≡ true
    → k ≢ slow
    → ver ≤ latest_version k
    → bit_offset m (members (version_struct k ver)) 0 ≡ some at
    → bit_offset m (members (struct_of k)) 0 ≡ some at
version_members k ver m at simple other known e =
    extends-bit_offset (members (version_struct k ver)) (members (struct_of k)) m 0 at
      (extends_current k ver simple other known) e
