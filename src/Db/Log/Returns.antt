-- ===== src/Db/Log/Returns.antt =====
-- When the insertions of src/rawio_db.c come back.
use libpueorawdata.Prelude.{
  String, ℕ, zero, suc, ◌+◌, ◌<◌, ◌≤◌, ◌≡◌, refl, ◌∙◌, true, List, [], ◌∷◌, ◌++◌, Bool-cases, inl,
  inr, lt→ltb, ◌==◌, arith,
}
use libpueorawdata.Prelude.Memory.{Bytes}
use libpueorawdata.Prelude.Run.{done}
use libpueorawdata.Layout.Access.{member}
use libpueorawdata.Sensors.{max_sensors_compat}
use libpueorawdata.Datatype.{Kind, full_waveforms, sensors_telem, logs}
use libpueorawdata.Db.Statement.{Engine, Statement}
use libpueorawdata.Db.State.{Build, Db, Opening, Closing, can_open}
use libpueorawdata.Db.Rows.Members.{Members, element}
use libpueorawdata.Db.Rows.Telemetry.{text_at, logs_row, logs_statement}
use libpueorawdata.Db.Insert.{rows, is_implemented, insert}
use libpueorawdata.Db.Log.{IsIdle, script_for, reply}
use libpueorawdata.Db.Log.Refines.{idle}
use libpueorawdata.Db.Log.Failures.{insert_idle}
use libpueorawdata.Db.Typing.Readings.{IsKnown, magic_of, id_of, sensors_telem-returns}

-- What a packet must hold so that its row can be printed.
abbrev pub IsPrintable : Kind → Members → Type 0
IsPrintable sensors_telem x =
    (x (member "num_packets" ∷ []) ≤ 256)
    × IsKnown (magic_of x)
    × ((j : ℕ) → j < x (member "num_packets" ∷ []) → id_of x j < max_sensors_compat (magic_of x))
IsPrintable logs x =
    x (member "daemon_len" ∷ []) + x (member "grep_len" ∷ []) + x (member "msg_len" ∷ []) ≤ 2048
IsPrintable k x = Unit {0}

-- A text inside the buffer is printed.
pub text_at-returns :
    (l : Members) (name : String) (limit n off : ℕ)
    → off + n ≤ limit
    → (text : Bytes) × (text_at l name limit n off ≡ done text)
unfolding text_at
text_at-returns l name limit zero off h = ([], refl)
text_at-returns l name limit (suc n) off h = elim (Bool-cases (l (element name off) == 0)) [
  | inl last ↦ ([], rw (lt→ltb off limit (omega arith), last))
  | inr more ↦
      let (text, e) = text_at-returns l name limit n (off + 1) (omega arith) in
      (l (element name off) ∷ text, rw (lt→ltb off limit (omega arith), more, e))
]

logs-returns :
    (e : Engine) (x : Members)
    → IsPrintable logs x
    → (written : List Statement) × (rows logs e x ≡ done written)
unfolding rows logs_row
logs-returns e x h =
    let daemon_len = x (member "daemon_len" ∷ []) in
    let grep_len = x (member "grep_len" ∷ []) in
    let msg_len = x (member "msg_len" ∷ []) in
    let (daemon, a) = text_at-returns x "buf" 2048 daemon_len 0 (omega arith) in
    let (grep, b) = text_at-returns x "buf" 2048 grep_len daemon_len (omega arith) in
    let (msg, c) = text_at-returns x "buf" 2048 msg_len (daemon_len + grep_len) (omega arith) in
    (logs_statement x daemon grep msg ∷ [], rw (a, b, c) refl)

rows-returns :
    (k : Kind) (e : Engine) (x : Members)
    → IsPrintable k x
    → (written : List Statement) × (rows k e x ≡ done written)
unfolding rows
rows-returns logs e x h = logs-returns e x h
rows-returns sensors_telem e x h = sensors_telem-returns e x h.0 h.1 h.2
rows-returns full_waveforms e x h = (_, refl)
rows-returns _ e x h = (_, refl)

-- An insertion into an idle handle whose stream can be opened returns, for every type that has
-- one, when the packet can be printed: what the engine replies to the script of its rows, which is
-- handed over behind the scripts before; the handle is idle again. Every packet can be printed of
-- the types but logs, whose texts have to lie in the buffer, and sensors_telem, with at most 256
-- readings, a known magic number and ids of its table.
pub insert-returns :
    (b : Build) (k : Kind) (o : Opening) (c : Closing) (x : Members) (h : Db)
    → IsIdle b h
    → is_implemented k ≡ true
    → IsPrintable k x
    → can_open o h.engine ≡ true
    → (written : List Statement) × (rows k h.engine x ≡ done written)
      × (insert k b o c x h
          ≡ done (reply c h.engine, idle h.engine h.target h.flags (h.sent ++ written ∷ [])))
unfolding script_for
insert-returns b k o c x h v full printable opens =
    let (written, e) = rows-returns k h.engine x printable in
    (written, e, insert_idle b k o c x h v ∙ rw (script_for, full, opens, e))
