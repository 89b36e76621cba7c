-- ===== src/Db/Log/Refines.antt =====
-- Every insertion of src/rawio_db.c does what the log says, and leaves the handle idle.
use libpueorawdata.Prelude.{
  ℕ, ◌≡◌, refl, ap, ◌∙◌, true, false, Option, none, some, List, [], ◌∷◌, Bool-cases, ◌⊎◌, inl, inr,
}
use libpueorawdata.Prelude.Int.{ℤ}
use libpueorawdata.Prelude.Memory.{Bytes}
use libpueorawdata.Prelude.Run.{Run, done, fault, ◌>>=◌}
use libpueorawdata.Layout.Access.{peek}
use libpueorawdata.Datatype.{Kind, of_code, struct_of}
use libpueorawdata.Db.Statement.{Engine, pgsql, sqldir, sqlite, Statement}
use libpueorawdata.Db.State.{
  Build, Db, Flags, Opening, Closing, ready, begun, can_open, begin_sql_stream, print,
  commit_sql_stream,
}
use libpueorawdata.Db.Insert.{
  rows, is_implemented, checks_stream, print_and_commit, insert, insert_packet,
}
use libpueorawdata.Db.Rows.Members.{Members}
use libpueorawdata.Db.Log.{
  supports, IsIdle, Call, script_for, script, reply, log_call, log_all, insert_all,
}

pub Option-cases {ℓ} : {A : Type ℓ} (o : Option A) → (o ≡ none) ⊎ ((a : A) × (o ≡ some a))
Option-cases none = inl refl
Option-cases (some a) = inr (a, refl)

-- A handle between two calls.
abbrev pub idle : Engine → Bytes → Flags → List (List Statement) → Db
idle e target flags log = record {
  engine = e;
  state = ready;
  target = target;
  flags = flags;
  stream = [];
  sent = log;
}

pub IsIdle-eq : (b : Build) (h : Db) → IsIdle b h → h ≡ idle h.engine h.target h.flags h.sent
IsIdle-eq b h v = λ i. record {
  engine = h.engine;
  state = v.is_ready i;
  target = h.target;
  flags = h.flags;
  stream = v.nothing_left i;
  sent = h.sent;
}

module _ (b : Build) (target : Bytes) (flags : Flags) where
  -- The log's account of a call, as a handle.
  abbrev pub after : Engine → ℤ × List (List Statement) → ℤ × Db
  after e (r, log) = (r, idle e target flags log)

  pub commit-written :
      (c : Closing) (e : Engine) (log : List (List Statement)) (written : List Statement)
      → supports b e ≡ true
      → commit_sql_stream b c (record (idle e target flags log) { state = begun; stream = written })
        ≡ after e (log_call c e (some written) log)
  unfolding commit_sql_stream reply
  commit-written c pgsql log written s = rw s refl
  commit-written c sqldir log written s = refl
  commit-written c sqlite log written s = rw s refl

  commit_after :
      (c : Closing) (e : Engine) (log : List (List Statement)) (rs : Run (List Statement))
      → supports b e ≡ true
      → (rs >>= λ written.
          print true written (record (idle e target flags log) { state = begun }) >>= λ h.
          done (commit_sql_stream b c h))
        ≡ (rs >>= λ written. done (after e (log_call c e (some written) log)))
  unfolding print
  commit_after c e log (done written) s = ap done (commit-written c e log written s)
  commit_after c e log (fault f) s = refl

  pub begin-opens :
      (o : Opening) (e : Engine) (log : List (List Statement))
      → can_open o e ≡ true
      → begin_sql_stream o (idle e target flags log)
        ≡ (record (idle e target flags log) { state = begun }, true)
  unfolding begin_sql_stream
  begin-opens o e log opens = rw opens refl

  pub begin-shut :
      (o : Opening) (e : Engine) (log : List (List Statement))
      → can_open o e ≡ false
      → begin_sql_stream o (idle e target flags log) ≡ (idle e target flags log, false)
  unfolding begin_sql_stream
  begin-shut o e log shut = rw shut refl

  some_lem :
      (c : Closing) (e : Engine) (log : List (List Statement)) (rs : Run (List Statement))
      → (rs >>= λ written. done (after e (log_call c e (some written) log))) ≡ (
          (rs >>= λ written. done (some written)) >>= λ written.
          done (after e (log_call c e written log)))
  some_lem c e log (done written) = refl
  some_lem c e log (fault f) = refl

  pub insert-script :
      (k : Kind) (o : Opening) (c : Closing) (e : Engine) (x : Members)
      (log : List (List Statement))
      → supports b e ≡ true
      → insert k b o c x (idle e target flags log)
        ≡ (script_for o e x k >>= λ written. done (after e (log_call c e written log)))
  unfolding insert script_for print_and_commit
  insert-script k o c e x log s = elim (Bool-cases (is_implemented k)) [
    | inr stub ↦ rw (insert, script_for, stub) refl
    | inl full ↦ elim (Bool-cases (can_open o e)) [
      | inl opens ↦
          rw (insert, script_for, full, begin-opens o e log opens, opens)
            (commit_after c e log (rows k e x) s ∙ some_lem c e log (rows k e x))
      | inr shut ↦ elim (Bool-cases (checks_stream k)) [
        | inl checked ↦
            rw
              (
                insert,
                script_for,
                full,
                begin-shut o e log shut,
                shut,
                print_and_commit,
                checked,
                begin-shut o e log shut,
              )
              refl
        | inr unchecked ↦
            rw
              (insert, script_for, full, begin-shut o e log shut, shut, print_and_commit, unchecked)
              refl
      ]
    ]
  ]

  pub insert_packet-script :
      (o : Opening) (c : Closing) (type : ℕ) (payload : Bytes) (e : Engine)
      (log : List (List Statement))
      → supports b e ≡ true
      → insert_packet b o c type payload (idle e target flags log) ≡ (
          script e (record { opening = o; closing = c; type = type; payload = payload })
          >>= λ written. done (after e (log_call c e written log)))
  unfolding insert_packet script
  insert_packet-script o c type payload e log s = elim (Option-cases (of_code type)) [
    | inl unknown ↦ rw (insert_packet, script, unknown)
    | inr (k, known) ↦
        rw (insert_packet, script, known) (insert-script k o c e (peek (struct_of k) payload) log s)
  ]

  abbrev pub after_all : Engine → List ℤ × List (List Statement) → List ℤ × Db
  after_all e (rs, log) = (rs, idle e target flags log)

  -- One more result in front.
  in_front :
      (e : Engine) (r : ℤ) (m : Run (List ℤ × List (List Statement)))
      → ((m >>= λ x. done (after_all e x)) >>= λ x. done (r ∷ x.0, x.1))
        ≡ ((m >>= λ x. done (r ∷ x.0, x.1)) >>= λ x. done (after_all e x))
  in_front e r (done x) = refl
  in_front e r (fault f) = refl

  all_step :
      (c : Closing) (cs : List Call) (e : Engine) (log : List (List Statement))
      (w : Run (Option (List Statement)))
      → ((log : List (List Statement))
          → insert_all b cs (idle e target flags log)
            ≡ (log_all e cs log >>= λ r. done (after_all e r)))
      → ((w >>= λ written. done (after e (log_call c e written log))) >>= λ x.
          insert_all b cs x.1 >>= λ y. done (x.0 ∷ y.0, y.1))
        ≡ ((w >>= λ written. log_all e cs (log_call c e written log).1 >>= λ x.
              done ((log_call c e written log).0 ∷ x.0, x.1))
            >>= λ r. done (after_all e r))
  all_step c cs e log (fault f) ih = refl
  all_step c cs e log (done w) ih =
      rw (ih (log_call c e w log).1)
        (in_front e (log_call c e w log).0 (log_all e cs (log_call c e w log).1))

  insert_all-log :
      (cs : List Call) (e : Engine) (log : List (List Statement))
      → supports b e ≡ true
      → insert_all b cs (idle e target flags log) ≡ (log_all e cs log >>= λ r. done (after_all e r))
  unfolding insert_all log_all
  insert_all-log [] e log s = refl
  insert_all-log (c ∷ cs) e log s =
      rw (insert_packet-script c.opening c.closing c.type c.payload e log s)
        (all_step c.closing cs e log (script e c) (λ log. insert_all-log cs e log s))

-- From every idle handle, any sequence of calls of pueo_db_insert_packet returns what the log's
-- account of the calls returns and leaves the same handle, idle, with the scripts of that account
-- behind those that were handed over before; it faults exactly where the account does.
pub insert_all-log_all :
    (b : Build) (cs : List Call) (h : Db)
    → IsIdle b h
    → insert_all b cs h
      ≡ (log_all h.engine cs h.sent >>= λ r. done (r.0, idle h.engine h.target h.flags r.1))
insert_all-log_all b cs h v =
    ap (λ h. insert_all b cs h) (IsIdle-eq b h v)
    ∙ insert_all-log b h.target h.flags cs h.engine h.sent v.supported
