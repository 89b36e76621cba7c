-- ===== src/Db/Open.antt =====
-- pueo_db_handle_open and what it chooses from, and init_db, of src/rawio_db.c.
pub mod Uris
use Prim.Native.Char.{code}
use Prim.Native.String.{String}
use libpueorawdata.Prelude.{
  ℕ, Bool, true, false, ◌&&◌, if◌then◌else◌, Option, none, some, List, [], ◌∷◌, ◌++◌,
}
use libpueorawdata.Prelude.Memory.{Bytes}
use libpueorawdata.Prelude.Run.{Run, done, fault, null_stream, ◌>>=◌}
use libpueorawdata.Handle.Init.{check_uri_prefix}
use libpueorawdata.Db.Statement.{Engine, pgsql, sqldir, sqlite}
use libpueorawdata.Db.State.{
  Build, Flags, Db, Opening, Closing, ready, begin_sql_stream, print, commit_sql_stream,
}
use libpueorawdata.Db.Tables.{init_statements}

-- The bytes of an ASCII text.
abbrev pub ascii : String → Bytes
ascii String.[] = []
ascii (String.◌∷◌ c s) = code c ∷ ascii s

-- What the calls outside the library do with a name: mkdir makes the directory or finds that there
-- is one, open of a directory, PQconnectdb and sqlite3_open succeed, and the calls that open and
-- close the stream of init_db.
pub record System : Type 0 where
  pub mkdir_ok : Bytes → Bool
  pub already_exists : Bytes → Bool
  pub open_dir_ok : Bytes → Bool
  pub connection_ok : Bytes → Bool
  pub sqlite_open_ok : Bytes → Bool
  pub opening : Opening
  pub closing : Closing

-- What the flag PUEO_DB_MAYBE_INIT_TABLES asks for. What the commit returns is dropped.
unfoldable pub init_when : Bool → Build → Opening → Closing → Db → Run Db
unfolding begin_sql_stream print init_statements commit_sql_stream
init_when false b o c h = done h
init_when true b o c h = do
  let begun = begin_sql_stream o h
  h' ← print begun.1 (init_statements h.engine h.flags.init_with_timescaledb) begun.0
  done (commit_sql_stream b c h').1

unfoldable pub init_db : Build → Opening → Closing → Db → Run Db
unfolding init_when
init_db b o c h = init_when h.flags.maybe_init_tables b o c h

abbrev pub new_handle : Engine → Bytes → Flags → Db
new_handle e target flags = record {
  engine = e;
  state = ready;
  target = target;
  flags = flags;
  stream = [];
  sent = [];
}

abbrev opened : Build → System → Engine → Bytes → Flags → Run (Option Db)
opened b s e target flags = do
  h ← init_db b s.opening s.closing (new_handle e target flags)
  done (some h)

unfoldable pub open_sqlfiles_dir : Build → System → Bytes → Flags → Run (Option Db)
unfolding init_db
open_sqlfiles_dir b s dir flags = elim (s.mkdir_ok dir) [
  | false ↦ elim (s.already_exists dir && s.open_dir_ok dir) [
    | false ↦ done none
    | true ↦ opened b s sqldir dir flags
  ]
  | true ↦ elim (s.open_dir_ok dir) [ false ↦ done none | true ↦ opened b s sqldir dir flags ]
]

unfoldable pub open_pgsql : Build → System → Bytes → Flags → Run (Option Db)
unfolding init_db
open_pgsql b s conninfo flags = elim (b.pgsql_enabled && s.connection_ok conninfo) [
  | false ↦ done none
  | true ↦ opened b s pgsql conninfo flags
]

unfoldable pub open_sqlite : Build → System → Bytes → Flags → Run (Option Db)
unfolding init_db
open_sqlite b s dbfile flags = elim (b.sqlite_enabled && s.sqlite_open_ok dbfile) [
  | false ↦ done none
  | true ↦ opened b s sqlite dbfile flags
]

-- The prefixes that are compared, in their order, with the function behind each.
pub data Scheme : Type 0 where
  postgresql timescaledb pgsql_conninfo timescaledb_conninfo sqldir_scheme sqlite_scheme : Scheme

abbrev pub prefix_of : Scheme → Bytes
prefix_of postgresql = ascii "postgresql://"
prefix_of timescaledb = ascii "timescaledb+postgresql://"
prefix_of pgsql_conninfo = ascii "PGSQL_CONNINFO:"
prefix_of timescaledb_conninfo = ascii "TIMESCALEDB_CONNINFO:"
prefix_of sqldir_scheme = ascii "sqldir://"
prefix_of sqlite_scheme = ascii "sqlite://"

abbrev pub with_timescaledb : Flags → Flags
with_timescaledb flags = record flags { init_with_timescaledb = true }

-- The branch for each prefix, with what follows it.
unfoldable pub open_scheme : Scheme → Build → System → Bytes → Flags → Run (Option Db)
unfolding open_pgsql open_sqlfiles_dir open_sqlite
open_scheme postgresql b s rest flags = open_pgsql b s (ascii "postgresql://" ++ rest) flags
open_scheme timescaledb b s rest flags =
    open_pgsql b s (ascii "postgresql://" ++ rest) (with_timescaledb flags)
open_scheme pgsql_conninfo b s rest flags = open_pgsql b s rest flags
open_scheme timescaledb_conninfo b s rest flags = open_pgsql b s rest (with_timescaledb flags)
open_scheme sqldir_scheme b s rest flags = open_sqlfiles_dir b s rest flags
open_scheme sqlite_scheme b s rest flags = open_sqlite b s rest flags

-- The first scheme whose prefix starts the text, with what follows. `strstr(uri, p) == uri` says
-- that p starts uri.
unfoldable pub find_scheme : Bytes → List Scheme → Option (Scheme × Bytes)
unfolding check_uri_prefix
find_scheme uri [] = none
find_scheme uri (s ∷ ss) = elim (check_uri_prefix uri (prefix_of s)) [
  | some rest ↦ some (s, rest)
  | none ↦ find_scheme uri ss
]

abbrev pub schemes : List Scheme
schemes =
    postgresql ∷ timescaledb ∷ pgsql_conninfo ∷ timescaledb_conninfo ∷ sqldir_scheme ∷ sqlite_scheme
    ∷ []

-- pueo_db_handle_open; none is the null handle.
unfoldable pub handle_open : Build → System → Bytes → Flags → Run (Option Db)
unfolding find_scheme open_scheme
handle_open b s uri flags = elim (find_scheme uri schemes) [
  | none ↦ done none
  | some found ↦ open_scheme found.0 b s found.1 flags
]
