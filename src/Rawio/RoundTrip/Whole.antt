-- ===== src/Rawio/RoundTrip/Whole.antt =====
-- Whole objects through a file: what `pueo_write_X` writes of an object, and what `pueo_read_X` makes
-- of it.
use libpueorawdata.Prelude.{
  ℕ, ◌+◌, ◌≤◌, ◌<◌, ◌≡◌, refl, sym, ◌∙◌, List, [], ◌++◌, length, arith, append-nil,
}
use libpueorawdata.Prelude.Int.{ℤ, pos}
use libpueorawdata.Prelude.Run.{Run, done, ◌>>=◌}
use libpueorawdata.Prelude.Memory.{Bytes}
use libpueorawdata.Datatype.{Kind, full_waveforms, latest_version, size_of}
use libpueorawdata.Handle.{Handle, Warning, hinit}
use libpueorawdata.Handle.File.{File, file_ops}
use libpueorawdata.Packets.Object.{IsObject, payload, restored}
use libpueorawdata.Packets.Object.Carries.{object-Carries}
use libpueorawdata.Rawio.{read_typed, write_typed}
use libpueorawdata.Rawio.RoundTrip.{
  packet_bytes, after_read, after_write, IsClean, read_typed-file, write_typed-file,
}

-- The bytes of the packet that is written for an object.
abbrev pub object_bytes : Kind → Bytes → Bytes
object_bytes k p = packet_bytes k (latest_version k) (payload k p)

pub latest_version-lt : (k : Kind) → latest_version k < 16
unfolding latest_version
latest_version-lt full_waveforms = omega arith
latest_version-lt _ = omega arith

pub write_typed-object :
    (k : Kind) (p : Bytes) (h : Handle File)
    → IsObject k p
    → 8 + length (payload k p) ≤ h.aux.room
    → write_typed k file_ops p h
      ≡ done (pos (8 + length (payload k p)), after_write k (payload k p) h)
write_typed-object k p h o fits =
    write_typed-file k p (payload k p) h (object-Carries k p o).writes fits

-- When a file goes on with the packet of an object and its handle has read no header in advance,
-- pueo_read_X of that type returns the payload's length, restores the object, leaves exactly what
-- stands behind the packet, counts the header and the payload as read, and prints nothing.
pub read_typed-object :
    (k : Kind) (p q rest : Bytes) (h : Handle File)
    → IsObject k p
    → length q ≡ size_of k
    → IsClean h
    → h.aux.unread ≡ object_bytes k p ++ rest
    → read_typed k file_ops q h
      ≡ done (
        pos (length (payload k p)),
        restored k p q,
        after_read k (latest_version k) (payload k p) rest h,
      )
read_typed-object k p q rest h o e clean u =
    read_typed-file k (latest_version k) (payload k p) q rest (restored k p) h
      (object-Carries k p o).reads (latest_version-lt k) e clean u

-- When a file has room, writing the object that was restored from a packet has the same result and
-- the same effect on the handle and the file as writing the object that the packet was made of,
-- whatever the object held into which it was restored.
pub rewrite-object :
    (k : Kind) (p q : Bytes) (h : Handle File)
    → IsObject k p
    → length q ≡ size_of k
    → 8 + length (payload k p) ≤ h.aux.room
    → write_typed k file_ops (restored k p q) h ≡ write_typed k file_ops p h
rewrite-object k p q h o e fits =
    write_typed-file k (restored k p q) (payload k p) h ((object-Carries k p o).writes_again q e)
      fits
    ∙ sym (write_typed-object k p h o fits)

-- A new file with so much room, and a file that is opened for reading.
abbrev pub created : ℕ → Handle File
created n = hinit (record { unread = []; written = []; room = n })

abbrev pub reopened : Handle File → Handle File
reopened h = hinit (record { unread = h.aux.written; written = []; room = 0 })

-- An object is written to a new file, and read from it into the object `q`: the two results, the
-- object, what is left of the file, and what was printed.
unfoldable pub write_then_read :
    Kind → ℕ → Bytes → Bytes → Run (ℤ × ℤ × Bytes × Bytes × List Warning)
write_then_read k n p q = do
  (nwr, h) ← write_typed k file_ops p (created n)
  (nrd, q, h) ← read_typed k file_ops q (reopened h)
  done (nwr, nrd, q, h.aux.unread, h.log)

-- An object of any packet type whose count fits its array is written by pueo_write_X to a new file
-- with room for it and read by pueo_read_X into an object of the type's size: the results are the
-- packet's and the payload's length, the object that was read is the restored one, nothing is left
-- in the file and neither check prints a message.
pub write_then_read_lem :
    (k : Kind) (n : ℕ) (p q : Bytes)
    → IsObject k p
    → length q ≡ size_of k
    → 8 + length (payload k p) ≤ n
    → write_then_read k n p q
      ≡ done (pos (8 + length (payload k p)), pos (length (payload k p)), restored k p q, [], [])
unfolding write_then_read hinit
write_then_read_lem k n p q o e fits = rw (
  write_typed-object k p (created n) o fits,
  read_typed-object k p q [] (reopened (after_write k (payload k p) (created n))) o e
      (record { no_head = refl; head_room = refl }) (sym (append-nil (object_bytes k p))),
)
