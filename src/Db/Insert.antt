-- ===== src/Db/Insert.antt =====
-- The insertions of src/rawio_db.c, and pueo_db_insert_packet of src/rawio.c.
use libpueorawdata.Prelude.{ℕ, Bool, true, false, none, some, List, [], ◌∷◌}
use libpueorawdata.Prelude.Int.{ℤ, negsuc}
use libpueorawdata.Prelude.Memory.{Bytes}
use libpueorawdata.Prelude.Run.{Run, done, fault, null_stream, ◌>>=◌}
use libpueorawdata.Layout.Access.{member, peek}
use libpueorawdata.Datatype.{
  Kind, full_waveforms, single_waveform, nav_att, nav_sat, nav_pos, sensors_telem, sensors_disk,
  slow, cmd_echo, ss, timemark, startracker, logs, daq_hsk, daq_hsk_summary, file_download,
  saved_priorities, prio_status, of_code, struct_of,
}
use libpueorawdata.Db.Statement.{Engine, Statement}
use libpueorawdata.Db.State.{
  Build, Db, Opening, Closing, begin_sql_stream, print, commit_sql_stream,
}
use libpueorawdata.Db.Rows.Members.{Members}
use libpueorawdata.Db.Rows.Position.{
  nav_att_row, nav_pos_row, timemark_row, startracker_row, prio_status_row,
}
use libpueorawdata.Db.Rows.Housekeeping.{ss_row, slow_row}
use libpueorawdata.Db.Rows.Daq.{daq_hsk_row, daq_hsk_summary_row}
use libpueorawdata.Db.Rows.Waveform.{single_waveform_row}
use libpueorawdata.Db.Rows.Telemetry.{sensor_rows, cmd_echo_row, logs_row}

-- What an insertion writes between opening and committing its stream.
unfoldable pub rows : Kind → Engine → Members → Run (List Statement)
rows ss e x = done (ss_row x ∷ [])
rows slow e x = done (slow_row x ∷ [])
rows single_waveform e x = done (single_waveform_row x ∷ [])
rows nav_att e x = done (nav_att_row x ∷ [])
rows nav_pos e x = done (nav_pos_row x ∷ [])
rows timemark e x = done (timemark_row x ∷ [])
rows startracker e x = done (startracker_row x ∷ [])
rows sensors_telem e x = sensor_rows e x (x (member "num_packets" ∷ [])) 0
rows cmd_echo e x = done (cmd_echo_row e x ∷ [])
rows logs e x = do row ← logs_row x; done (row ∷ [])
rows prio_status e x = done (prio_status_row x ∷ [])
rows daq_hsk e x = done (daq_hsk_row x ∷ [])
rows daq_hsk_summary e x = done (daq_hsk_summary_row x ∷ [])
rows _ e x = done []

-- UNSUPPORTED_INSERT_DB and STUB_INSERT_DB make the insertions that only return -1.
abbrev pub is_implemented : Kind → Bool
is_implemented full_waveforms = false
is_implemented sensors_disk = false
is_implemented nav_sat = false
is_implemented file_download = false
is_implemented saved_priorities = false
is_implemented _ = true

-- Only the insertion of sensors checks the stream that it gets.
abbrev pub checks_stream : Kind → Bool
checks_stream sensors_telem = true
checks_stream _ = false

-- What follows begin_sql_stream, with whether it returned a stream.
unfoldable pub print_and_commit : Kind → Build → Closing → Members → Db × Bool → Run (ℤ × Db)
unfolding rows print commit_sql_stream
print_and_commit k b c x (h, true) = do
  written ← rows k h.engine x
  h' ← print true written h
  done (commit_sql_stream b c h')
print_and_commit k b c x (h, false) = elim (checks_stream k) [
  | true ↦ done (negsuc 0, h)
  | false ↦ fault null_stream
]

-- pueo_db_insert_X for the type X.
unfoldable pub insert : Kind → Build → Opening → Closing → Members → Db → Run (ℤ × Db)
unfolding print_and_commit begin_sql_stream
insert k b o c x h = elim (is_implemented k) [
  | false ↦ done (negsuc 0, h)
  | true ↦ print_and_commit k b c x (begin_sql_stream o h)
]

-- The type code of the packet's header and its payload.
unfoldable pub insert_packet : Build → Opening → Closing → ℕ → Bytes → Db → Run (ℤ × Db)
unfolding insert peek of_code struct_of
insert_packet b o c type payload h = elim (of_code type) [
  | none ↦ done (negsuc 0, h)
  | some k ↦ insert k b o c (peek (struct_of k) payload) h
]
