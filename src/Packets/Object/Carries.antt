-- ===== src/Packets/Object/Carries.antt =====
-- Every object of a packet type is carried by its payload: the promises of `Codec`, for whole
-- objects.
use libpueorawdata.Prelude.{refl}
use libpueorawdata.Prelude.Memory.{Bytes}
use libpueorawdata.Datatype.{
  Kind, full_waveforms, single_waveform, sensors_disk, sensors_telem, cmd_echo, file_download, logs,
  nav_sat,
}
use libpueorawdata.Packets.Object.{IsObject, payload, restored}
use libpueorawdata.Packets.Object.Carrier.{Carries, simple-Carries}
use libpueorawdata.Packets.Object.Counted.{
  cmd_echo-Carries, file_download-Carries, logs-Carries, nav_sat-Carries, sensors_disk-Carries,
  sensors_telem-Carries,
}
use libpueorawdata.Packets.Object.Waves.{single_waveform-Carries, full_waveforms-Carries}

pub object-Carries :
    (k : Kind) (p : Bytes) → IsObject k p → Carries k p (payload k p) (restored k p)
unfolding payload restored
object-Carries full_waveforms p o = full_waveforms-Carries p o
object-Carries single_waveform p o = single_waveform-Carries p o
object-Carries sensors_disk p o = sensors_disk-Carries p o
object-Carries sensors_telem p o = sensors_telem-Carries p o
object-Carries cmd_echo p o = cmd_echo-Carries p o
object-Carries file_download p o = file_download-Carries p o
object-Carries logs p o = logs-Carries p o
object-Carries nav_sat p o = nav_sat-Carries p o
object-Carries k p o = simple-Carries k p refl o.object_size
