-- ===== src/Db/Typing/Rows.antt =====
-- Which insertions fit the created tables.
use libpueorawdata.Prelude.{◌≡◌, Bool, true, false, [], ◌∷◌}
use libpueorawdata.Prelude.Memory.{Bytes}
use libpueorawdata.Prelude.Run.{Returns}
use libpueorawdata.Datatype.{Kind, single_waveform, nav_pos, cmd_echo, logs, prio_status}
use libpueorawdata.Db.Statement.{Engine, pgsql, sqldir, sqlite, Statement}
use libpueorawdata.Db.Rows.Members.{Members}
use libpueorawdata.Db.Insert.{rows}
use libpueorawdata.Db.Tables.{init_statements}
use libpueorawdata.Db.Typing.{all_typed}

-- Whether all that an insertion writes is of the types of its table. The tables of nav_pos and
-- prio_status are not created, that of single waveforms lacks the eight columns of the priority, the
-- logs have a number for a BOOLEAN, and the digits of a command's data stand behind no opening of BYTEA.
unfoldable pub accepted : Kind → Engine → Bool
accepted nav_pos e = false
accepted prio_status e = false
accepted single_waveform e = false
accepted logs sqlite = true
accepted logs e = false
accepted cmd_echo e = false
accepted k e = true

pub by_engine :
    (P : Engine → Bool → Type 0)
    → P pgsql true
    → P pgsql false
    → P sqldir true
    → P sqldir false
    → P sqlite true
    → P sqlite false
    → (e : Engine) (ts : Bool) → P e ts
by_engine P a b c d f g pgsql true = a
by_engine P a b c d f g pgsql false = b
by_engine P a b c d f g sqldir true = c
by_engine P a b c d f g sqldir false = d
by_engine P a b c d f g sqlite true = f
by_engine P a b c d f g sqlite false = g

-- The insertion of the type is typed as the table above says, for all packets.
abbrev Fits : Kind → Engine → Bool → Type 0
Fits k e ts =
    (x : Members)
    → Returns (λ written. all_typed e (init_statements e ts) written ≡ accepted k e) (rows k e x)

-- A row of the logs, whatever the three texts are.
abbrev LogFits : Engine → Bool → Statement → Type 0
LogFits e ts row = all_typed e (init_statements e ts) (row ∷ []) ≡ accepted logs e

abbrev Any : Bytes → Type 0
Any s = Unit {0}
