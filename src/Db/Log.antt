-- ===== src/Db/Log.antt =====
-- The database handle seen as a log: what a sequence of calls of pueo_db_insert_packet hands over.
pub mod Refines
pub mod Reach
pub mod Failures
pub mod Returns
use libpueorawdata.Prelude.{
  ℕ, ◌≡◌, refl, sym, ap, ◌∙◌, Bool, true, false, Option, none, some, List, [], ◌∷◌, ◌++◌,
  append_assoc, append-nil, if◌then◌else◌,
}
use libpueorawdata.Prelude.Int.{ℤ, pos, negsuc}
use libpueorawdata.Prelude.Memory.{Bytes}
use libpueorawdata.Prelude.Run.{Run, done, fault, null_stream, ◌>>=◌}
use libpueorawdata.Layout.Access.{peek}
use libpueorawdata.Datatype.{Kind, of_code, struct_of}
use libpueorawdata.Db.Statement.{Engine, pgsql, sqldir, sqlite, Statement}
use libpueorawdata.Db.State.{
  Build, Db, Opening, Closing, ready, begun, can_open, begin_sql_stream, print, commit_sql_stream,
  commit_begun,
}
use libpueorawdata.Db.Insert.{
  rows, is_implemented, checks_stream, print_and_commit, insert, insert_packet,
}
use libpueorawdata.Db.Rows.Members.{Members}

-- Whether the library was built with the engine.
abbrev pub supports : Build → Engine → Bool
supports b pgsql = b.pgsql_enabled
supports b sqldir = true
supports b sqlite = b.sqlite_enabled

pub record IsIdle (b : Build) (h : Db) : Type 0 where
  pub is_ready : h.state ≡ ready
  pub nothing_left : h.stream ≡ []
  pub supported : supports b h.engine ≡ true

-- One call: what the C library does when a stream is opened and closed, and the packet.
pub record Call : Type 0 where
  pub opening : Opening
  pub closing : Closing
  pub type : ℕ
  pub payload : Bytes

-- The script of a type's insertion: none where it only returns -1.
unfoldable pub script_for : Opening → Engine → Members → Kind → Run (Option (List Statement))
unfolding can_open rows
script_for o e x k = elim (is_implemented k) [
  | false ↦ done none
  | true ↦ elim (can_open o e) [
    | true ↦ do written ← rows k e x; done (some written)
    | false ↦ elim (checks_stream k) [ true ↦ done none | false ↦ fault null_stream ]
  ]
]

unfoldable pub script : Engine → Call → Run (Option (List Statement))
unfolding of_code struct_of peek script_for
script e c = elim (of_code c.type) [
  | none ↦ done none
  | some k ↦ script_for c.opening e (peek (struct_of k) c.payload) k
]

-- What the engine returns for a script.
unfoldable pub reply : Closing → Engine → ℤ
reply c sqldir = c.fclose_result
reply c pgsql = if c.pg_status_ok then pos 0 else negsuc 0
reply c sqlite = c.sqlite_result

-- The log's own account of a call: what is returned, and the log that grows by the script.
abbrev pub log_call :
    Closing → Engine → Option (List Statement) → List (List Statement) → ℤ × List (List Statement)
log_call c e none log = (negsuc 0, log)
log_call c e (some written) log = (reply c e, log ++ written ∷ [])

unfoldable pub log_all :
    Engine → List Call → List (List Statement) → Run (List ℤ × List (List Statement))
unfolding script reply
log_all e [] log = done ([], log)
log_all e (c ∷ cs) log = do
  written ← script e c
  let (r, log') = log_call c.closing e written log
  (rs, log'') ← log_all e cs log'
  done (r ∷ rs, log'')

-- The calls one after the other on the handle, and what they return.
unfoldable pub insert_all : Build → List Call → Db → Run (List ℤ × Db)
unfolding insert_packet
insert_all b [] h = done ([], h)
insert_all b (c ∷ cs) h = do
  (r, h') ← insert_packet b c.opening c.closing c.type c.payload h
  (rs, h'') ← insert_all b cs h'
  done (r ∷ rs, h'')
