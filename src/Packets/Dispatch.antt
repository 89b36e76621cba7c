-- ===== src/Packets/Dispatch.antt =====
-- The functions that the macros of src/rawio_packets.h declare for each packet type.
use libpueorawdata.Prelude.{ℕ}
use libpueorawdata.Prelude.Int.{ℤ}
use libpueorawdata.Prelude.Run.{Run}
use libpueorawdata.Prelude.Memory.{Bytes}
use libpueorawdata.Datatype.{
  Kind, full_waveforms, single_waveform, sensors_disk, sensors_telem, cmd_echo, file_download, logs,
  nav_sat,
}
use libpueorawdata.Handle.{Handle, Ops}
use libpueorawdata.Handle.Header.{Head}
use libpueorawdata.Packets.Simple.{header_for_simple, write_simple, read_simple}
use libpueorawdata.Packets.Waveform.{
  header_for_single_waveform, write_single_waveform, read_single_waveform,
  header_for_full_waveforms, write_full_waveforms, read_full_waveforms,
}
use libpueorawdata.Packets.Counted.Sensors.{
  header_for_sensors_disk, write_sensors_disk, read_sensors_disk, header_for_sensors_telem,
  write_sensors_telem, read_sensors_telem,
}
use libpueorawdata.Packets.Counted.Text.{
  header_for_cmd_echo, write_cmd_echo, read_cmd_echo, header_for_file_download, write_file_download,
  read_file_download, header_for_logs, write_logs, read_logs, header_for_nav_sat, write_nav_sat,
  read_nav_sat,
}

-- `pueo_packet_header_for_X`.
unfoldable pub packet_header_for : Kind → Bytes → ℕ → Run Head
packet_header_for full_waveforms p ver = header_for_full_waveforms p ver
packet_header_for single_waveform p ver = header_for_single_waveform p ver
packet_header_for sensors_disk p ver = header_for_sensors_disk p ver
packet_header_for sensors_telem p ver = header_for_sensors_telem p ver
packet_header_for cmd_echo p ver = header_for_cmd_echo p ver
packet_header_for file_download p ver = header_for_file_download p ver
packet_header_for logs p ver = header_for_logs p ver
packet_header_for nav_sat p ver = header_for_nav_sat p ver
packet_header_for k p ver = header_for_simple k p ver

-- `pueo_write_packet_X`.
unfoldable pub write_packet : {S : Type 0} → Kind → Ops S → Bytes → Handle S → Run (ℤ × Handle S)
write_packet full_waveforms ops p h = write_full_waveforms ops p h
write_packet single_waveform ops p h = write_single_waveform ops p h
write_packet sensors_disk ops p h = write_sensors_disk ops p h
write_packet sensors_telem ops p h = write_sensors_telem ops p h
write_packet cmd_echo ops p h = write_cmd_echo ops p h
write_packet file_download ops p h = write_file_download ops p h
write_packet logs ops p h = write_logs ops p h
write_packet nav_sat ops p h = write_nav_sat ops p h
write_packet k ops p h = write_simple k ops p h

-- `pueo_read_packet_X`.
unfoldable pub read_packet :
    {S : Type 0} → Kind → Ops S → Bytes → ℕ → Handle S → Run (ℤ × Bytes × Handle S)
read_packet full_waveforms ops p ver h = read_full_waveforms ops p ver h
read_packet single_waveform ops p ver h = read_single_waveform ops p ver h
read_packet sensors_disk ops p ver h = read_sensors_disk ops p ver h
read_packet sensors_telem ops p ver h = read_sensors_telem ops p ver h
read_packet cmd_echo ops p ver h = read_cmd_echo ops p ver h
read_packet file_download ops p ver h = read_file_download ops p ver h
read_packet logs ops p ver h = read_logs ops p ver h
read_packet nav_sat ops p ver h = read_nav_sat ops p ver h
read_packet k ops p ver h = read_simple k ops p ver h
