-- ===== src/Db/State.antt =====
-- `struct pueo_db_handle` of src/rawio_db.c, its streams of SQL, and what closes it.
use libpueorawdata.Prelude.{Bool, true, false, ◌&&◌, if◌then◌else◌, List, [], ◌∷◌, ◌++◌}
use libpueorawdata.Prelude.Int.{ℤ, pos, negsuc}
use libpueorawdata.Prelude.Memory.{Bytes}
use libpueorawdata.Prelude.Run.{Run, done, fault, null_stream}
use libpueorawdata.Db.Statement.{Engine, pgsql, sqldir, sqlite, Statement}

pub data State : Type 0 where
  invalid ready begun failed : State

-- PGSQL_ENABLED and SQLITE_ENABLED.
pub record Build : Type 0 where
  pub pgsql_enabled : Bool
  pub sqlite_enabled : Bool

-- The flags PUEO_DB_MAYBE_INIT_TABLES and PUEO_DB_INIT_WITH_TIMESCALEDB.
pub record Flags : Type 0 where
  pub maybe_init_tables : Bool
  pub init_with_timescaledb : Bool

-- `target` is the name that `description` ends with: the directory, the connection or the file.
-- `stream` is what was written to the stream that is open, and `sent` the scripts that were handed
-- over so far: queries of the database, or files of the directory.
pub record Db : Type 0 where
  pub engine : Engine
  pub state : State
  pub target : Bytes
  pub flags : Flags
  pub stream : List Statement
  pub sent : List (List Statement)

-- Which calls of the C library succeed when a stream is opened.
pub record Opening : Type 0 where
  pub gmtime_ok : Bool
  pub openat_ok : Bool
  pub fdopen_ok : Bool
  pub memstream_ok : Bool

-- What closing a stream and executing its text return. `pg_status_ok` is that PQresultStatus
-- gives PGRES_COMMAND_OK or PGRES_TUPLES_OK.
pub record Closing : Type 0 where
  pub fclose_result : ℤ
  pub pg_status_ok : Bool
  pub sqlite_result : ℤ

-- Whether the stream of the handle's engine can be opened.
unfoldable pub can_open : Opening → Engine → Bool
can_open o sqldir = o.gmtime_ok && (o.openat_ok && o.fdopen_ok)
can_open o _ = o.memstream_ok

abbrev pub is_ready : State → Bool
is_ready ready = true
is_ready _ = false

abbrev pub is_begun : State → Bool
is_begun begun = true
is_begun _ = false

-- The handle, and whether the FILE * that is returned is there.
unfoldable pub begin_sql_stream : Opening → Db → Db × Bool
unfolding can_open
begin_sql_stream o h =
    if is_ready h.state
    then (if can_open o h.engine
        then (record h { state = begun; stream = [] }, true)
        else (h, false))
    else (h, false)

-- `fprintf` and `fputs`.
unfoldable pub print : Bool → List Statement → Db → Run Db
print true s h = done (record h { stream = h.stream ++ s })
print false s h = fault null_stream

-- The text is handed over, and the handle is ready again.
abbrev handed_over : Db → Db
handed_over h = record h { state = ready; stream = []; sent = h.sent ++ h.stream ∷ [] }

unfoldable pub commit_begun : Build → Closing → Engine → Db → ℤ × Db
commit_begun b c sqldir h = (c.fclose_result, handed_over h)
commit_begun b c pgsql h =
    if b.pgsql_enabled
    then (if c.pg_status_ok then pos 0 else negsuc 0, handed_over h)
    else (negsuc 0, record h { state = failed })
commit_begun b c sqlite h =
    if b.sqlite_enabled
    then (c.sqlite_result, handed_over h)
    else (negsuc 0, record h { state = failed })

unfoldable pub commit_sql_stream : Build → Closing → Db → ℤ × Db
unfolding commit_begun
commit_sql_stream b c h = if is_begun h.state then commit_begun b c h.engine h else (negsuc 0, h)

-- What is left to the engine when the handle is freed.
unfoldable pub db_handle_close : Build → Closing → Db → List (List Statement)
unfolding commit_sql_stream
db_handle_close b c h = if is_begun h.state then (commit_sql_stream b c h).1.sent else h.sent
