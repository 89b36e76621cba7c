-- ===== src/Dump/Packet.antt =====
-- pueo_dump_packet of src/rawio.c.
use libpueorawdata.Prelude.{ℕ, none, some, List}
use libpueorawdata.Prelude.Int.{ℤ, pos, negsuc}
use libpueorawdata.Prelude.Memory.{Bytes}
use libpueorawdata.Prelude.Run.{Run, done, ◌>>=◌}
use libpueorawdata.Layout.Access.{peek}
use libpueorawdata.Datatype.{
  Kind, full_waveforms, single_waveform, nav_att, nav_sat, nav_pos, sensors_telem, sensors_disk,
  slow, cmd_echo, ss, timemark, startracker, logs, daq_hsk, daq_hsk_summary, file_download,
  saved_priorities, prio_status, of_code, struct_of,
}
use libpueorawdata.Db.Rows.Members.{Members}
use libpueorawdata.Dump.Print.{Print, Line, Output, print_macros}
use libpueorawdata.Dump.Event.{dump_full_waveforms, dump_single_waveform, dump_saved_priorities}
use libpueorawdata.Dump.Readings.{dump_sensors_telem, dump_sensors_disk}
use libpueorawdata.Dump.Position.{
  dump_nav_att, dump_nav_pos, dump_nav_sat, dump_startracker, dump_timemark,
}
use libpueorawdata.Dump.Status.{
  dump_slow, dump_ss, dump_cmd_echo, dump_logs, dump_file_download, dump_prio_status,
}
use libpueorawdata.Dump.Daq.{dump_daq_hsk, dump_daq_hsk_summary}

-- The macro calls of pueo_dump_X, for the type X, in their order.
unfoldable pub dump : Kind → Members → Run (List Print)
dump full_waveforms x = dump_full_waveforms x
dump single_waveform x = dump_single_waveform x
dump nav_att x = done (dump_nav_att x)
dump nav_sat x = dump_nav_sat x
dump nav_pos x = done (dump_nav_pos x)
dump sensors_telem x = dump_sensors_telem x
dump sensors_disk x = dump_sensors_disk x
dump slow x = done (dump_slow x)
dump cmd_echo x = dump_cmd_echo x
dump ss x = done (dump_ss x)
dump timemark x = done (dump_timemark x)
dump startracker x = done (dump_startracker x)
dump logs x = dump_logs x
dump daq_hsk x = done (dump_daq_hsk x)
dump daq_hsk_summary x = done (dump_daq_hsk_summary x)
dump file_download x = dump_file_download x
dump saved_priorities x = done (dump_saved_priorities x)
dump prio_status x = done (dump_prio_status x)

-- `count` is what fprintf returns for a line.
unfoldable pub dump_kind : (Line → ℤ) → Kind → Members → Output → Run (ℤ × Output)
unfolding dump print_macros
dump_kind count k x o = do
  calls ← dump k x
  let o' = print_macros count calls (record o { ret = pos 0 })
  done (o'.ret, o')

unfoldable pub dump_packet : (Line → ℤ) → ℕ → Bytes → Output → Run (ℤ × Output)
unfolding dump_kind of_code
dump_packet count type payload o = elim (of_code type) [
  | none ↦ done (negsuc 0, o)
  | some k ↦ dump_kind count k (peek (struct_of k) payload) o
]
