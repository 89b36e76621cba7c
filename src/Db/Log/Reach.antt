-- ===== src/Db/Log/Reach.antt =====
-- The handles that the calls of src/rawio_db.c can reach.
use libpueorawdata.Prelude.{
  ◌≡◌, refl, ap, Bool, true, false, ◌&&◌, Option, none, some, List, [], ◌∷◌, Bool-cases, inl, inr,
  subst, arith,
}
use libpueorawdata.Prelude.Int.{ℤ}
use libpueorawdata.Prelude.Memory.{Bytes}
use libpueorawdata.Prelude.Run.{Run, done, fault, ◌>>=◌, Returns}
use libpueorawdata.Db.Statement.{Engine, pgsql, sqldir, sqlite, Statement}
use libpueorawdata.Db.State.{Build, Db, Flags, Opening, Closing, can_open, print, db_handle_close}
use libpueorawdata.Db.Tables.{init_statements}
use libpueorawdata.Db.Insert.{insert_packet}
use libpueorawdata.Db.Open.{
  System, Scheme, init_db, init_when, new_handle, open_pgsql, open_sqlite, open_sqlfiles_dir,
  open_scheme, find_scheme, schemes, handle_open, with_timescaledb, postgresql, timescaledb,
  pgsql_conninfo, timescaledb_conninfo, sqldir_scheme, sqlite_scheme,
}
use libpueorawdata.Db.Log.{supports, IsIdle, Call, script, log_call}
use libpueorawdata.Db.Log.Refines.{
  Option-cases, idle, IsIdle-eq, after, commit-written, insert_packet-script, begin-opens,
  begin-shut,
}

-- A handle that pueo_db_handle_open returned, and one after pueo_db_insert_packet.
pub data Reachable (b : Build) : Db → Type 0 where
  opening :
      {h : Db} (s : System) (uri : Bytes) (flags : Flags)
      → handle_open b s uri flags ≡ done (some h)
      → Reachable b h
  inserting :
      {h h' : Db} (c : Call) (r : ℤ)
      → Reachable b h
      → insert_packet b c.opening c.closing c.type c.payload h ≡ done (r, h')
      → Reachable b h'

abbrev IfThere {ℓ} : {A : Type ℓ} → (A → Type 0) → Option A → Type 0
IfThere P none = Unit {0}
IfThere P (some a) = P a

idle_lem :
    (b : Build) (e : Engine) (target : Bytes) (flags : Flags) (log : List (List Statement))
    → supports b e ≡ true
    → IsIdle b (idle e target flags log)
idle_lem b e target flags log s = record { is_ready = refl; nothing_left = refl; supported = s }

after-IsIdle :
    (b : Build) (target : Bytes) (flags : Flags) (e : Engine) (c : Closing)
    (log : List (List Statement)) (w : Run (Option (List Statement)))
    → supports b e ≡ true
    → Returns
        (λ x. IsIdle b x.1)
        (w >>= λ written. done (after b target flags e (log_call c e written log)))
after-IsIdle b target flags e c log (done w) s = idle_lem b e target flags _ s
after-IsIdle b target flags e c log (fault f) s = tt

insert-IsIdle :
    (b : Build) (c : Call) (h : Db)
    → IsIdle b h
    → Returns (λ x. IsIdle b x.1) (insert_packet b c.opening c.closing c.type c.payload h)
insert-IsIdle b c h v = rw (IsIdle-eq b h v) (
    rw
      (insert_packet-script b h.target h.flags c.opening c.closing c.type c.payload h.engine h.sent
        v.supported)
      (after-IsIdle b h.target h.flags h.engine c.closing h.sent (script h.engine c) v.supported))

both_first : (x y : Bool) → (x && y) ≡ true → x ≡ true
both_first x y h = ground arith

-- Creating the tables hands over one script, and leaves the handle idle.
pub init_when-opens :
    (b : Build) (o : Opening) (c : Closing) (e : Engine) (target : Bytes) (flags : Flags)
    → supports b e ≡ true
    → can_open o e ≡ true
    → init_when true b o c (new_handle e target flags)
      ≡ done (idle e target flags (init_statements e flags.init_with_timescaledb ∷ []))
unfolding init_when print
init_when-opens b o c e target flags s opens = rw (begin-opens b target flags o e [] opens) (
    ap (λ x. done x.1)
      (commit-written b target flags c e [] (init_statements e flags.init_with_timescaledb) s))

init_when-IsIdle :
    (m : Bool) (b : Build) (o : Opening) (c : Closing) (e : Engine) (target : Bytes) (flags : Flags)
    → supports b e ≡ true
    → Returns (IsIdle b) (init_when m b o c (new_handle e target flags))
unfolding init_when print
init_when-IsIdle false b o c e target flags s = idle_lem b e target flags [] s
init_when-IsIdle true b o c e target flags s = elim (Bool-cases (can_open o e)) [
  | inl opens ↦ rw (init_when-opens b o c e target flags s opens) (idle_lem b e target flags _ s)
  | inr shut ↦ rw (begin-shut b target flags o e [] shut) tt
]

opened-IsIdle :
    (b : Build) (s : System) (e : Engine) (target : Bytes) (flags : Flags)
    → supports b e ≡ true
    → Returns
        (IfThere (IsIdle b))
        (init_db b s.opening s.closing (new_handle e target flags) >>= λ h. done (some h))
unfolding init_db
opened-IsIdle b s e target flags sup =
    in_some (init_when flags.maybe_init_tables b s.opening s.closing (new_handle e target flags))
      (init_when-IsIdle flags.maybe_init_tables b s.opening s.closing e target flags sup)
  where
    in_some :
        (m : Run Db)
        → Returns (IsIdle b) m
        → Returns (IfThere (IsIdle b)) (m >>= λ h. done (some h))
    in_some (done h) v = v
    in_some (fault f) v = tt

sqldir-IsIdle :
    (b : Build) (s : System) (dir : Bytes) (flags : Flags)
    → Returns (IfThere (IsIdle b)) (open_sqlfiles_dir b s dir flags)
unfolding open_sqlfiles_dir
sqldir-IsIdle b s dir flags = elim (Bool-cases (s.mkdir_ok dir)) [
  | inl made ↦ elim (Bool-cases (s.open_dir_ok dir)) [
    | inl opens ↦ rw (open_sqlfiles_dir, made, opens) (opened-IsIdle b s sqldir dir flags refl)
    | inr shut ↦ rw (open_sqlfiles_dir, made, shut) tt
  ]
  | inr not_made ↦ elim (Bool-cases (s.already_exists dir && s.open_dir_ok dir)) [
    | inl opens ↦ rw (open_sqlfiles_dir, not_made, opens) (opened-IsIdle b s sqldir dir flags refl)
    | inr shut ↦ rw (open_sqlfiles_dir, not_made, shut) tt
  ]
]

pgsql-IsIdle :
    (b : Build) (s : System) (conninfo : Bytes) (flags : Flags)
    → Returns (IfThere (IsIdle b)) (open_pgsql b s conninfo flags)
unfolding open_pgsql
pgsql-IsIdle b s conninfo flags = elim (Bool-cases (b.pgsql_enabled && s.connection_ok conninfo)) [
  | inl opens ↦
      rw (open_pgsql, opens)
        (opened-IsIdle b s pgsql conninfo flags (both_first b.pgsql_enabled _ opens))
  | inr shut ↦ rw (open_pgsql, shut) tt
]

sqlite-IsIdle :
    (b : Build) (s : System) (dbfile : Bytes) (flags : Flags)
    → Returns (IfThere (IsIdle b)) (open_sqlite b s dbfile flags)
unfolding open_sqlite
sqlite-IsIdle b s dbfile flags = elim (Bool-cases (b.sqlite_enabled && s.sqlite_open_ok dbfile)) [
  | inl opens ↦
      rw (open_sqlite, opens)
        (opened-IsIdle b s sqlite dbfile flags (both_first b.sqlite_enabled _ opens))
  | inr shut ↦ rw (open_sqlite, shut) tt
]

scheme-IsIdle :
    (scheme : Scheme) (b : Build) (s : System) (rest : Bytes) (flags : Flags)
    → Returns (IfThere (IsIdle b)) (open_scheme scheme b s rest flags)
unfolding open_scheme
scheme-IsIdle postgresql b s rest flags = pgsql-IsIdle b s _ flags
scheme-IsIdle timescaledb b s rest flags = pgsql-IsIdle b s _ (with_timescaledb flags)
scheme-IsIdle pgsql_conninfo b s rest flags = pgsql-IsIdle b s rest flags
scheme-IsIdle timescaledb_conninfo b s rest flags = pgsql-IsIdle b s rest (with_timescaledb flags)
scheme-IsIdle sqldir_scheme b s rest flags = sqldir-IsIdle b s rest flags
scheme-IsIdle sqlite_scheme b s rest flags = sqlite-IsIdle b s rest flags

handle_open-IsIdle :
    (b : Build) (s : System) (uri : Bytes) (flags : Flags)
    → Returns (IfThere (IsIdle b)) (handle_open b s uri flags)
unfolding handle_open
handle_open-IsIdle b s uri flags = elim (Option-cases (find_scheme uri schemes)) [
  | inl unknown ↦ rw (handle_open, unknown) tt
  | inr (found, e) ↦ rw (handle_open, e) (scheme-IsIdle found.0 b s found.1 flags)
]

Reachable-IsReady : (b : Build) {h : Db} → Reachable b h → IsIdle b h
Reachable-IsReady b (opening s uri flags e) =
    subst (Returns (IfThere (IsIdle b))) e (handle_open-IsIdle b s uri flags)
Reachable-IsReady b (inserting {h} c r before e) =
    subst (Returns (λ x. IsIdle b x.1)) e (insert-IsIdle b c h (Reachable-IsReady b before))

close_idle : (b : Build) (c : Closing) (h : Db) → IsIdle b h → db_handle_close b c h ≡ h.sent
unfolding db_handle_close
close_idle b c h v = ap (λ h. db_handle_close b c h) (IsIdle-eq b h v)

-- Every handle that pueo_db_handle_open returns, and that any calls of pueo_db_insert_packet make
-- of it, is ready for the next call, has nothing left of a stream, and is one of an engine that
-- the library was built with; so no transaction is left open and the failed state is not reached.
-- Closing it hands nothing over beyond what was handed over before.
pub Reachable-IsIdle :
    (b : Build) {h : Db}
    → Reachable b h
    → IsIdle b h × ((c : Closing) → db_handle_close b c h ≡ h.sent)
Reachable-IsIdle b {h} r = let v = Reachable-IsReady b r in (v, λ c. close_idle b c h v)
