-- ===== src/Rawio/RoundTrip/Mismatch.antt =====
-- A packet that is asked for as another type: `pueo_read_X` leaves it where it is, and remembers its
-- header.
use libpueorawdata.Prelude.{
  ℕ, ◌≡◌, ◌≢◌, refl, sym, ◌∙◌, true, false, ◌==◌, Bool-cases, inl, inr, ==_iff, ◌++◌, length,
  append_assoc,
}
use mathlib.Core.Option.{some-injective}
use libpueorawdata.Prelude.Int.{pos}
use libpueorawdata.Prelude.Run.{done, ◌>>=◌}
use libpueorawdata.Prelude.Memory.{Bytes}
use libpueorawdata.Datatype.{Kind, code, latest_version, size_of}
use libpueorawdata.Datatype.Codes.{of_code_iff}
use libpueorawdata.Handle.{Handle, Ops}
use libpueorawdata.Handle.File.{File, file_ops}
use libpueorawdata.Handle.Header.{make_head}
use libpueorawdata.Packets.Codec.{head_of}
use libpueorawdata.Packets.Object.{IsObject, payload, restored}
use libpueorawdata.Packets.Object.Carries.{object-Carries}
use libpueorawdata.Rawio.{read_typed, maybe_read_header}
use libpueorawdata.Rawio.Packet.{Packet, ll_read, eio}
use libpueorawdata.Rawio.RoundTrip.{
  after_head, IsClean, decoded, maybe_read_header-file, read_typed-head,
}
use libpueorawdata.Rawio.RoundTrip.Whole.{object_bytes, latest_version-lt, read_typed-object}

-- The header's type is no other type's code.
other_code :
    (k j : Kind) (ver : ℕ) (bs : Bytes) → k ≢ j → ((head_of k ver bs).type == code j) ≡ false
unfolding make_head
other_code k j ver bs other = elim (Bool-cases (code k == code j)) [
  | inl same ↦ absurd (
      other (
        some-injective k j (
          sym ((of_code_iff (code k) k).1 refl)
          ∙ (of_code_iff (code k) j).1 ((==_iff (code k) (code j)).0 same))))
  | inr differs ↦ differs
]

pub read_typed-other :
    (k j : Kind) (p q rest : Bytes) (h : Handle File)
    → k ≢ j
    → IsClean h
    → h.aux.unread ≡ object_bytes k p ++ rest
    → read_typed j file_ops q h
      ≡ done (pos 0, q, after_head k (latest_version k) (payload k p) (payload k p ++ rest) h)
unfolding read_typed
read_typed-other k j p q rest h other clean u = rw (
  maybe_read_header-file k (latest_version k) (payload k p) (payload k p ++ rest) h clean
      (u ∙ append_assoc _ (payload k p) rest),
  decoded k (latest_version k) (payload k p),
  other_code k j (latest_version k) (payload k p) other,
)

-- When a file goes on with the packet of an object, asking for another type by pueo_read_X first
-- does not change what pueo_read_X of the packet's own type then does.
pub read_typed-next :
    (k j : Kind) (p q q' rest : Bytes) (h : Handle File)
    → IsObject k p
    → k ≢ j
    → length q ≡ size_of k
    → IsClean h
    → h.aux.unread ≡ object_bytes k p ++ rest
    → (read_typed j file_ops q' h >>= λ (_, _, h). read_typed k file_ops q h)
      ≡ read_typed k file_ops q h
read_typed-next k j p q q' rest h o other e clean u =
    rw (read_typed-other k j p q' rest h other clean u) (
      read_typed-head k (latest_version k) (payload k p) q rest (restored k p)
        (after_head k (latest_version k) (payload k p) (payload k p ++ rest) h)
        (object-Carries k p o).reads (latest_version-lt k) e refl refl refl
      ∙ sym (read_typed-object k p q rest h o e clean u))

-- On every kind of handle, when a header was read in advance and no required size is noted,
-- pueo_ll_read returns -EIO and changes neither the packet nor the handle, so that the next call
-- fails in the same way.
pub ll_read-after_other :
    {S : Type 0} (ops : Ops S) (dest : Packet) (h : Handle S)
    → h.already_read_head ≡ true
    → h.required_read_size ≡ 0
    → ll_read ops dest h ≡ done (eio, dest, h)
unfolding ll_read maybe_read_header
ll_read-after_other ops dest h already ready = simp (already, ready)
