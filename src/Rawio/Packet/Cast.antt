-- ===== src/Rawio/Packet/Cast.antt =====
-- `pueo_packet_as_X` on the packets that `pueo_ll_read` and `pueo_ll_read_realloc` fill.
use libpueorawdata.Prelude.{
  ℕ, sym, ◌≢◌, ◌≤◌, ◌≡◌, ap, ◌∙◌, ◌==◌, true, none, arith, le→ltb, Bool-cases, inl, inr, ==_iff,
}
use mathlib.Core.Option.{some-injective}
use libpueorawdata.Prelude.Memory.{Bytes}
use libpueorawdata.Datatype.{Kind, code, size_of}
use libpueorawdata.Datatype.Codes.{of_code_iff}
use libpueorawdata.Rawio.Packet.{Packet, packet_as, packet_name, type_name, head_type}
use libpueorawdata.Handle.{Handle}
use libpueorawdata.Handle.File.{File}
use libpueorawdata.Rawio.Packet.Retry.{filled, reallocated, object_head, object_kind}

-- The header's type code is the packet's own only.
same_kind : (k j : Kind) (p : Bytes) → (head_type (object_head k p) == code j) ≡ true → k ≡ j
same_kind k j p e = some-injective k j (
    sym (object_kind k p)
    ∙ (of_code_iff (head_type (object_head k p)) j).1
        ((==_iff (head_type (object_head k p)) (code j)).0 e))

-- A packet that was filled with the packet of an object is given out as null by pueo_packet_as_X
-- of every other type.
pub packet_as-other :
    (k j : Kind) (p : Bytes) (dest : Packet) → k ≢ j → packet_as j (filled k p dest) ≡ none
unfolding packet_as
packet_as-other k j p dest other = elim (Bool-cases (head_type (object_head k p) == code j)) [
  | inl same ↦ absurd (other (same_kind k j p same))
  | inr differs ↦ rw differs
]

-- A packet that pueo_ll_read_realloc allocated for what it read, with exactly the struct's
-- capacity, is given out as null by pueo_packet_as_X of every type, its own included.
pub packet_as-reallocated :
    (k j : Kind) (p : Bytes) (fresh : ℕ → Bytes) → packet_as j (reallocated k p fresh) ≡ none
unfolding packet_as
packet_as-reallocated k j p fresh = elim (Bool-cases (head_type (object_head k p) == code j)) [
  | inl same ↦
      let exact : size_of k ≤ size_of j =
        omega (arith, ap (λ t. size_of t) (same_kind k j p same)) in
      rw (same, le→ltb (size_of j) (size_of k) exact)
  | inr differs ↦ rw differs
]

-- The names that are printed for a packet.
pub packet_name-filled :
    (k : Kind) (p : Bytes) (dest : Packet) → packet_name (filled k p dest) ≡ type_name k
unfolding packet_name
packet_name-filled k p dest = rw (packet_name, object_kind k p)
