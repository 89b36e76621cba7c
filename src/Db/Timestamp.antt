-- ===== src/Db/Timestamp.antt =====
-- `sqlite_to_timestamp` of src/rawio_db.c, the function TO_TIMESTAMP that a sqlite connection gets.
use libpueorawdata.Prelude.{zero, Option, none, some, List, [], ◌∷◌}
use libpueorawdata.Prelude.Int.{ℤ, pos}
use libpueorawdata.Prelude.Memory.{Bytes}

-- The arguments are read as 64-bit integers, and none is NULL. `calendar` is gmtime_r followed by
-- strftime with "%Y-%m-%d %H:%M:%S".
unfoldable pub sqlite_to_timestamp : (ℤ → Bytes) → List ℤ → Option Bytes
sqlite_to_timestamp calendar [] = none
sqlite_to_timestamp calendar (pos zero ∷ args) = none
sqlite_to_timestamp calendar (as_int ∷ args) = some (calendar as_int)
