-- ===== src/Tests/Database.antt =====
-- The theorems on the database export applied at concrete packets and handles.
use libpueorawdata.Prelude.{ℕ, ltb, ◌≡◌, refl, true, false, List, [], ◌∷◌, if◌then◌else◌}
use libpueorawdata.Prelude.Int.{pos}
use libpueorawdata.Prelude.Memory.{Bytes, zeros}
use libpueorawdata.Prelude.Run.{done, ◌>>=◌}
use libpueorawdata.Layout.Access.{peek}
use libpueorawdata.Geometry.{nbeams}
use libpueorawdata.Datatype.{struct_of, single_waveform, startracker, sensors_telem}
use libpueorawdata.Db.Statement.{pgsql, sqldir, sqlite, Statement, seconds, number, insert_into}
use libpueorawdata.Db.State.{Build, Db, Flags, Opening, Closing, can_open, db_handle_close}
use libpueorawdata.Db.Rows.Members.{Members}
use libpueorawdata.Db.Rows.Position.{startracker_row}
use libpueorawdata.Db.Rows.Daq.{max_index}
use libpueorawdata.Db.Rows.Daq.Beams.{IsFirstMax, max_index-IsFirstMax}
use libpueorawdata.Db.Rows.Waveform.{sample, samples, stats}
use libpueorawdata.Db.Rows.Waveform.Samples.{IsRange, stats-IsRange}
use libpueorawdata.Db.Insert.{rows, insert, insert_packet}
use libpueorawdata.Db.Open.{System, ascii, handle_open, open_scheme, new_handle, find_scheme}
use libpueorawdata.Db.Open.Uris.{opens_as, handle_open_lem}
use libpueorawdata.Db.Log.{IsIdle, Call, reply, log_all, insert_all}
use libpueorawdata.Db.Log.Refines.{idle, insert_all-log_all}
use libpueorawdata.Db.Log.Reach.{opening, inserting, Reachable-IsIdle}
use libpueorawdata.Db.Log.Returns.{insert-returns}

abbrev both : Build
both = record { pgsql_enabled = true; sqlite_enabled = true }

abbrev works : Opening
works = record { gmtime_ok = true; openat_ok = true; fdopen_ok = true; memstream_ok = true }

abbrev full_disk : Opening
full_disk = record { gmtime_ok = true; openat_ok = false; fdopen_ok = true; memstream_ok = true }

abbrev closes : Closing
closes = record { fclose_result = pos 0; pg_status_ok = true; sqlite_result = pos 0 }

abbrev plain : Flags
plain = record { maybe_init_tables = false; init_with_timescaledb = false }

abbrev machine : System
machine = record {
  mkdir_ok = λ dir. true;
  already_exists = λ dir. false;
  open_dir_ok = λ dir. true;
  connection_ok = λ c. true;
  sqlite_open_ok = λ f. true;
  opening = works;
  closing = closes;
}

-- The directory "out".
abbrev directory : Db
directory = new_handle sqldir (ascii "out") plain

directory-IsIdle : IsIdle both directory
directory-IsIdle = record { is_ready = refl; nothing_left = refl; supported = refl }

-- A star tracker's packet with the times 5 s and 7 s, and a packet of no type.
abbrev stars : Bytes
stars = 5 ∷ 0 ∷ 0 ∷ 0 ∷ 0 ∷ 0 ∷ 0 ∷ 0 ∷ 7 ∷ 0 ∷ 0 ∷ 0 ∷ 0 ∷ 0 ∷ 0 ∷ 0 ∷ []

abbrev call : ℕ → Bytes → Call
call type payload = record { opening = works; closing = closes; type = type; payload = payload }

stars_row :
    startracker_row (peek (struct_of startracker) stars)
    ≡ insert_into "startrackers"
        ("st1_timestamp_s" ∷ "st1_timestamp_ns" ∷ "st3_timestamp_s" ∷ "st3_timestamp_ns" ∷ [])
        (seconds (pos 5) ∷ number (pos 0) ∷ seconds (pos 7) ∷ number (pos 0) ∷ [])
unfolding startracker_row peek struct_of
stars_row = refl

insert_all-log_all_example : insert_all both (call 0xe71c stars ∷ call 0 [] ∷ []) directory ≡ (
    log_all sqldir (call 0xe71c stars ∷ call 0 [] ∷ []) [] >>= λ r.
    done (r.0, idle sqldir (ascii "out") plain r.1))
insert_all-log_all_example =
    insert_all-log_all both (call 0xe71c stars ∷ call 0 [] ∷ []) directory directory-IsIdle

-- The directory is opened, and the star tracker's packet is inserted.
Reachable-IsIdle_example :
    IsIdle both
      (record directory { sent = (startracker_row (peek (struct_of startracker) stars) ∷ []) ∷ [] })
    × ((c : Closing)
        → db_handle_close both c (record directory {
          sent = (startracker_row (peek (struct_of startracker) stars) ∷ []) ∷ [];
        })
          ≡ (startracker_row (peek (struct_of startracker) stars) ∷ []) ∷ [])
unfolding handle_open find_scheme open_scheme insert_packet peek struct_of startracker_row
Reachable-IsIdle_example =
    Reachable-IsIdle both (
      inserting (call 0xe71c stars) (pos 0) (opening machine (ascii "sqldir://out") plain refl)
        refl)

insert-returns_example :
    (written : List Statement) × (rows startracker sqldir (peek (struct_of startracker) stars)
      ≡ done written)
    × (insert startracker both works closes (peek (struct_of startracker) stars) directory
        ≡ done (reply closes sqldir, idle sqldir (ascii "out") plain (written ∷ [])))
unfolding can_open
insert-returns_example =
    insert-returns both startracker works closes (peek (struct_of startracker) stars) directory
      directory-IsIdle refl tt refl

-- 5 readings' room, of which 2 are used: the sensors 0 and 297 of the current table.
abbrev telemetry : Bytes
telemetry = 100 ∷ 0 ∷ 0 ∷ 0 ∷ 0x25 ∷ 0x25 ∷ 2 ∷ 0 ∷ 0 ∷ 0 ∷ 7 ∷ 0 ∷ 0x29 ∷ 1 ∷ 9 ∷ 0 ∷ zeros 12

abbrev readings : Members
readings = peek (struct_of sensors_telem) telemetry

max_index-IsFirstMax_example :
    IsFirstMax (λ j. if ltb j 7 then j else 3) nbeams (max_index (λ j. if ltb j 7 then j else 3))
max_index-IsFirstMax_example = max_index-IsFirstMax (λ j. if ltb j 7 then j else 3)

highest_of_seven : max_index (λ j. if ltb j 7 then j else 3) ≡ 6
unfolding max_index
highest_of_seven = refl

abbrev flat : Bytes
flat = zeros 2104

stats-IsRange_example :
    IsRange
      (sample (peek (struct_of single_waveform) flat))
      samples
      (stats (peek (struct_of single_waveform) flat))
stats-IsRange_example = stats-IsRange flat

-- "db", with the tables created.
abbrev with_tables : Flags
with_tables = record { maybe_init_tables = true; init_with_timescaledb = false }

abbrev for_hypertables : Flags
for_hypertables = record { maybe_init_tables = true; init_with_timescaledb = true }

handle_open_lem_example :
    (handle_open both machine (ascii "postgresql://db") with_tables
      ≡ opens_as both machine pgsql (ascii "postgresql://db") with_tables)
    × (handle_open both machine (ascii "timescaledb+postgresql://db") with_tables
        ≡ opens_as both machine pgsql (ascii "postgresql://db") for_hypertables)
    × (handle_open both machine (ascii "PGSQL_CONNINFO:db") with_tables
        ≡ opens_as both machine pgsql (ascii "db") with_tables)
    × (handle_open both machine (ascii "TIMESCALEDB_CONNINFO:db") with_tables
        ≡ opens_as both machine pgsql (ascii "db") for_hypertables)
    × (handle_open both machine (ascii "sqldir://db") with_tables
        ≡ opens_as both machine sqldir (ascii "db") with_tables)
    × (handle_open both machine (ascii "sqlite://db") with_tables
        ≡ opens_as both machine sqlite (ascii "db") with_tables)
handle_open_lem_example = handle_open_lem both machine (ascii "db") with_tables
