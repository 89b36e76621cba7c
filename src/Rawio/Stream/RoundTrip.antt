-- ===== src/Rawio/Stream/RoundTrip.antt =====
-- A file of packets is read as it was written.
use libpueorawdata.Prelude.{
  ℕ, zero, suc, ◌+◌, ◌≤◌, ◌<◌, ◌≡◌, refl, sym, ap, ◌∙◌, Bool, true, List, [], ◌∷◌, ◌++◌, length,
  arith, append-nil, append_assoc, length-append,
}
use libpueorawdata.Prelude.Int.{ℤ, pos}
use libpueorawdata.Prelude.Run.{Run, done, ◌>>=◌}
use libpueorawdata.Prelude.Memory.{Bytes}
use libpueorawdata.Datatype.{code}
use libpueorawdata.Datatype.Codes.{of_code_iff}
use libpueorawdata.Handle.{Handle, hinit}
use libpueorawdata.Handle.Header.{encode_head}
use libpueorawdata.Handle.File.{File, file_ops}
use libpueorawdata.Packets.Object.{IsObject, payload}
use libpueorawdata.Rawio.{ll_write}
use libpueorawdata.Rawio.RoundTrip.{IsClean, after_write}
use libpueorawdata.Rawio.RoundTrip.Whole.{object_bytes, write_typed-object, created, reopened}
use libpueorawdata.Rawio.Packet.{Packet}
use libpueorawdata.Rawio.Packet.Retry.{
  object_head, reallocated, after_packet, ll_read_realloc-small, ll_read_realloc-eof, size_of-pos,
}
use libpueorawdata.Rawio.Stream.{Item, write_all, read_all, no_packet}

abbrev pub AreObjects : List Item → Type 0
AreObjects [] = Unit {0}
AreObjects (o ∷ os) = IsObject o.kind o.object × AreObjects os

-- The bytes of the packets, the results of writing them, and the packets that are read.
abbrev pub stream_bytes : List Item → Bytes
stream_bytes [] = []
stream_bytes (o ∷ os) = object_bytes o.kind o.object ++ stream_bytes os

abbrev pub stream_results : List Item → List ℤ
stream_results [] = []
stream_results (o ∷ os) = pos (8 + length (payload o.kind o.object)) ∷ stream_results os

abbrev pub stream_packets : (ℕ → Bytes) → List Item → List Packet
stream_packets fresh [] = []
stream_packets fresh (o ∷ os) = reallocated o.kind o.object fresh ∷ stream_packets fresh os

-- The handle after they were written.
abbrev after_all : List Item → Handle File → Handle File
after_all [] h = h
after_all (o ∷ os) h = after_all os (after_write o.kind (payload o.kind o.object) h)

ll_write-object :
    (o : Item) (h : Handle File)
    → IsObject o.kind o.object
    → 8 + length (payload o.kind o.object) ≤ h.aux.room
    → ll_write file_ops (code o.kind) o.object h
      ≡ done (
        pos (8 + length (payload o.kind o.object)),
        after_write o.kind (payload o.kind o.object) h,
      )
unfolding ll_write
ll_write-object o h v fits = rw (
  ll_write,
  (of_code_iff (code o.kind) o.kind).1 refl,
  write_typed-object o.kind o.object h v fits,
)

length-stream :
    (o : Item) (os : List Item)
    → length (stream_bytes (o ∷ os))
      ≡ 8 + length (payload o.kind o.object) + length (stream_bytes os)
unfolding encode_head
length-stream o os = omega (
  arith,
  length-append (payload o.kind o.object) (stream_bytes os),
  length-append (object_bytes o.kind o.object) (stream_bytes os),
)

write_all-file :
    (os : List Item) (h : Handle File)
    → AreObjects os
    → length (stream_bytes os) ≤ h.aux.room
    → write_all file_ops os h ≡ done (stream_results os, after_all os h)
unfolding write_all encode_head
write_all-file [] h v fits = refl
write_all-file (o ∷ os) h v fits = rw (
  ll_write-object o h v.0 (omega (arith, length-stream o os)),
  write_all-file os (after_write o.kind (payload o.kind o.object) h) v.1
      (omega (arith, length-stream o os)),
)

written-after_all :
    (os : List Item) (h : Handle File)
    → (after_all os h).aux.written ≡ h.aux.written ++ stream_bytes os
written-after_all [] h = sym (append-nil h.aux.written)
written-after_all (o ∷ os) h =
    written-after_all os (after_write o.kind (payload o.kind o.object) h)
    ∙ (ap (λ t. t ++ stream_bytes os)
          (append_assoc h.aux.written (object_head o.kind o.object) (payload o.kind o.object))
        ∙ append_assoc h.aux.written (object_bytes o.kind o.object) (stream_bytes os))

read_all-file :
    (fresh : ℕ → Bytes) (os : List Item) (fuel : ℕ) (h : Handle File)
    → ((n : ℕ) → length (fresh n) ≡ n)
    → AreObjects os
    → IsClean h
    → h.required_read_size ≡ 0
    → h.aux.unread ≡ stream_bytes os
    → length os < fuel
    → read_all fresh file_ops fuel h ≡ done (stream_packets fresh os, true)
unfolding read_all encode_head
read_all-file fresh os zero h sizes v clean ready u enough = absurd (omega arith)
read_all-file fresh [] (suc fuel) h sizes v clean ready u enough =
    rw (ll_read_realloc-eof fresh no_packet h clean ready u)
read_all-file fresh (o ∷ os) (suc fuel) h sizes v clean ready u enough = rw (
  ll_read_realloc-small o.kind o.object (stream_bytes os) h v.0 clean ready u fresh no_packet sizes
      (size_of-pos o.kind),
  read_all-file fresh os fuel (after_packet o.kind o.object (stream_bytes os) h) sizes v.1
      (record { no_head = refl; head_room = refl }) refl refl (omega arith),
)

-- The packets of a list of objects are written to a new file with room for them, and read from it
-- until its end.
unfoldable pub write_then_read_all : (ℕ → Bytes) → ℕ → ℕ → List Item → Run (List Packet × Bool)
write_then_read_all fresh n fuel os = do
  (_, h) ← write_all file_ops os (created n)
  read_all fresh file_ops fuel (reopened h)

-- A list of objects of any packet types, each with a count that fits its array, is written by
-- pueo_ll_write to a new file with room for the packets, and the file is then read by
-- pueo_ll_read_realloc from a handle of its own: with more calls allowed than there are packets,
-- and memory of the size that is asked for, exactly the packets come back in their order, each
-- with its header and its restored object, and then the end of the file.
pub write_then_read_all_lem :
    (fresh : ℕ → Bytes) (os : List Item) (n fuel : ℕ)
    → ((n : ℕ) → length (fresh n) ≡ n)
    → AreObjects os
    → length (stream_bytes os) ≤ n
    → length os < fuel
    → write_then_read_all fresh n fuel os ≡ done (stream_packets fresh os, true)
unfolding write_then_read_all hinit
write_then_read_all_lem fresh os n fuel sizes v fits enough = rw (
  write_all-file os (created n) v fits,
  read_all-file fresh os fuel (reopened (after_all os (created n))) sizes v
      (record { no_head = refl; head_room = refl }) refl (written-after_all os (created n)) enough,
)
