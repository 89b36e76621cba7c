-- ===== src/Db/Open/Uris.antt =====
-- What pueo_db_handle_open of src/rawio_db.c makes of the URIs of each kind.
use libpueorawdata.Prelude.{
  ◌≡◌, refl, Bool, true, false, ◌&&◌, ◌||◌, if◌then◌else◌, none, some, Option, [], ◌∷◌, ◌++◌,
  Bool-cases, inl, inr, arith,
}
use libpueorawdata.Prelude.Memory.{Bytes}
use libpueorawdata.Prelude.Run.{Run, done, fault, null_stream, ◌>>=◌}
use libpueorawdata.Handle.Init.{check_uri_prefix}
use libpueorawdata.Db.Statement.{Engine, pgsql, sqldir, sqlite}
use libpueorawdata.Db.State.{Build, Flags, Db, print, can_open}
use libpueorawdata.Db.Tables.{init_statements}
use libpueorawdata.Db.Open.{
  System, ascii, new_handle, init_when, init_db, open_sqlfiles_dir, open_pgsql, open_sqlite,
  open_scheme, find_scheme, handle_open,
}
use libpueorawdata.Db.Log.{supports}
use libpueorawdata.Db.Log.Refines.{idle, begin-shut}
use libpueorawdata.Db.Log.Reach.{init_when-opens}

-- Whether what a URI names can be reached.
abbrev reachable : Build → System → Engine → Bytes → Bool
reachable b s pgsql target = b.pgsql_enabled && s.connection_ok target
reachable b s sqlite target = b.sqlite_enabled && s.sqlite_open_ok target
reachable b s sqldir target = (s.mkdir_ok target || s.already_exists target) && s.open_dir_ok target

-- The handle between calls, to which the script of the tables was handed over if that was asked for.
abbrev fresh : System → Engine → Bytes → Flags → Run (Option Db)
fresh s e target flags =
    if flags.maybe_init_tables
    then (if can_open s.opening e
        then done (some (idle e target flags (init_statements e flags.init_with_timescaledb ∷ [])))
        else fault null_stream)
    else done (some (idle e target flags []))

-- What a URI is opened as: the engine, what it opens, and the flags.
abbrev pub opens_as : Build → System → Engine → Bytes → Flags → Run (Option Db)
opens_as b s e target flags = if reachable b s e target then fresh s e target flags else done none

init_when-fresh :
    (m : Bool) (b : Build) (s : System) (e : Engine) (target : Bytes) (flags : Flags)
    → supports b e ≡ true
    → (init_when m b s.opening s.closing (new_handle e target flags) >>= λ h. done (some h)) ≡ (
        if m
        then (if can_open s.opening e
            then done
                (some (idle e target flags (init_statements e flags.init_with_timescaledb ∷ [])))
            else fault null_stream)
        else done (some (idle e target flags [])))
unfolding init_when print
init_when-fresh false b s e target flags sup = refl
init_when-fresh true b s e target flags sup = elim (Bool-cases (can_open s.opening e)) [
  | inl opens ↦ rw (init_when-opens b s.opening s.closing e target flags sup opens, opens)
  | inr shut ↦ rw (begin-shut b target flags s.opening e [] shut, shut)
]

opened-fresh :
    (b : Build) (s : System) (e : Engine) (target : Bytes) (flags : Flags)
    → supports b e ≡ true
    → (init_db b s.opening s.closing (new_handle e target flags) >>= λ h. done (some h))
      ≡ fresh s e target flags
unfolding init_db
opened-fresh b s e target flags sup = init_when-fresh flags.maybe_init_tables b s e target flags sup

both_first : (x y : Bool) → (x && y) ≡ true → x ≡ true
both_first x y h = ground arith

module _ (b : Build) (s : System) where
  open_pgsql-opens :
      (target : Bytes) (flags : Flags)
      → open_pgsql b s target flags ≡ opens_as b s pgsql target flags
  unfolding open_pgsql
  open_pgsql-opens target flags = elim (Bool-cases (reachable b s pgsql target)) [
    | inl r ↦ rw (open_pgsql, r) (opened-fresh b s pgsql target flags (both_first _ _ r))
    | inr not_r ↦ rw (open_pgsql, not_r)
  ]

  open_sqlite-opens :
      (target : Bytes) (flags : Flags)
      → open_sqlite b s target flags ≡ opens_as b s sqlite target flags
  unfolding open_sqlite
  open_sqlite-opens target flags = elim (Bool-cases (reachable b s sqlite target)) [
    | inl r ↦ rw (open_sqlite, r) (opened-fresh b s sqlite target flags (both_first _ _ r))
    | inr not_r ↦ rw (open_sqlite, not_r)
  ]

  open_sqldir-opens :
      (target : Bytes) (flags : Flags)
      → open_sqlfiles_dir b s target flags ≡ opens_as b s sqldir target flags
  unfolding open_sqlfiles_dir
  open_sqldir-opens target flags = elim (Bool-cases (s.mkdir_ok target)) [
    | inl made ↦ elim (Bool-cases (s.open_dir_ok target)) [
      | inl r ↦ rw (open_sqlfiles_dir, made, r) (opened-fresh b s sqldir target flags refl)
      | inr not_r ↦ rw (open_sqlfiles_dir, made, not_r)
    ]
    | inr not_made ↦ elim (Bool-cases (s.already_exists target && s.open_dir_ok target)) [
      | inl r ↦ rw (open_sqlfiles_dir, not_made, r) (opened-fresh b s sqldir target flags refl)
      | inr not_r ↦ rw (open_sqlfiles_dir, not_made, not_r)
    ]
  ]

abbrev for_timescaledb : Flags → Flags
for_timescaledb flags = record {
  maybe_init_tables = flags.maybe_init_tables;
  init_with_timescaledb = true;
}

-- pueo_db_handle_open of each of the six prefixes opens the engine, the text and the flags of that
-- prefix: the postgresql forms keep their scheme, the conninfo forms do not, and the two of
-- TimescaleDB set that flag. The result is the null handle when the engine is not built in or
-- cannot be reached; otherwise it is the handle between calls, with the script of the tables
-- handed over when the flags ask for it, or a write to the null stream when that script has no
-- stream.
pub handle_open_lem :
    (b : Build) (s : System) (rest : Bytes) (flags : Flags)
    → (handle_open b s (ascii "postgresql://" ++ rest) flags
        ≡ opens_as b s pgsql (ascii "postgresql://" ++ rest) flags)
      × (handle_open b s (ascii "timescaledb+postgresql://" ++ rest) flags
          ≡ opens_as b s pgsql (ascii "postgresql://" ++ rest) (for_timescaledb flags))
      × (handle_open b s (ascii "PGSQL_CONNINFO:" ++ rest) flags ≡ opens_as b s pgsql rest flags)
      × (handle_open b s (ascii "TIMESCALEDB_CONNINFO:" ++ rest) flags
          ≡ opens_as b s pgsql rest (for_timescaledb flags))
      × (handle_open b s (ascii "sqldir://" ++ rest) flags ≡ opens_as b s sqldir rest flags)
      × (handle_open b s (ascii "sqlite://" ++ rest) flags ≡ opens_as b s sqlite rest flags)
unfolding handle_open find_scheme check_uri_prefix open_scheme
handle_open_lem b s rest flags = (
  open_pgsql-opens b s (ascii "postgresql://" ++ rest) flags,
  open_pgsql-opens b s (ascii "postgresql://" ++ rest) (for_timescaledb flags),
  open_pgsql-opens b s rest flags,
  open_pgsql-opens b s rest (for_timescaledb flags),
  open_sqldir-opens b s rest flags,
  open_sqlite-opens b s rest flags,
)
