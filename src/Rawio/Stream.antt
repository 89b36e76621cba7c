-- ===== src/Rawio/Stream.antt =====
-- Files of many packets: they are written one after the other by `pueo_ll_write`, and read by
-- `pueo_ll_read_realloc` until the end of the file.
pub mod RoundTrip
use libpueorawdata.Prelude.{
  ℕ, zero, suc, ◌+◌, Bool, true, false, if◌then◌else◌, some, List, [], ◌∷◌, ◌++◌, length,
}
use libpueorawdata.Prelude.Int.{ℤ}
use libpueorawdata.Prelude.Run.{Run, done, ◌>>=◌}
use libpueorawdata.Prelude.Memory.{Bytes, zeros}
use libpueorawdata.Datatype.{Kind, code}
use libpueorawdata.Handle.{Handle, Ops}
use libpueorawdata.Rawio.{is_eof, ll_write}
use libpueorawdata.Rawio.Packet.{Packet, ll_read_realloc}

-- An object, with the packet type that it is of.
pub record Item : Type 0 where
  pub kind : Kind
  pub object : Bytes

unfoldable pub write_all : {S : Type 0} → Ops S → List Item → Handle S → Run (List ℤ × Handle S)
write_all ops [] h = done ([], h)
write_all ops (o ∷ os) h = do
  (ret, h) ← ll_write ops (code o.kind) o.object h
  (rets, h) ← write_all ops os h
  done (ret ∷ rets, h)

-- A packet without a payload, as a caller has who lets every packet be allocated.
abbrev pub no_packet : Packet
no_packet = record { head = zeros 8; payload_capacity = 0; payload = [] }

-- At most `fuel` packets are read; the second result says whether the end of the file was reached.
unfoldable pub read_all :
    {S : Type 0} → (ℕ → Bytes) → Ops S → ℕ → Handle S → Run (List Packet × Bool)
read_all fresh ops zero h = done ([], false)
read_all fresh ops (suc fuel) h = ll_read_realloc fresh ops (some no_packet) h >>= λ (ret, p, h).
    let rest = read_all fresh ops fuel h in
    if is_eof ret then done ([], true) else (rest >>= λ (ps, ended). done (p ∷ ps, ended))
