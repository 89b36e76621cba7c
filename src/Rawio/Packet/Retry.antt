-- ===== src/Rawio/Packet/Retry.antt =====
-- `pueo_ll_read` and `pueo_ll_read_realloc` over a file that goes on with a packet: into a buffer that
-- is large enough, into one that is too small, and the second try.
use libpueorawdata.Prelude.{
  ℕ, ◌≤◌, ◌<◌, ◌≡◌, refl, ap, ◌∙◌, some, [], ◌++◌, length, arith, lt→ltb, le→ltb, ==-of_ne,
  append_assoc,
}
use libpueorawdata.Prelude.Int.{pos}
use libpueorawdata.Prelude.Run.{done}
use libpueorawdata.Prelude.Memory.{Bytes, zeros}
use libpueorawdata.Datatype.{Kind, full_waveforms, code, of_code, latest_version, size_of}
use libpueorawdata.Datatype.Codes.{of_code_iff}
use libpueorawdata.Handle.{Handle}
use libpueorawdata.Handle.File.{File, file_ops, get_bytes-eof}
use libpueorawdata.Rawio.{eof, maybe_read_header}
use libpueorawdata.Handle.Header.{make_head, encode_head}
use libpueorawdata.Packets.Codec.{head_of}
use libpueorawdata.Packets.Object.{IsObject, payload, restored}
use libpueorawdata.Packets.Object.Carries.{object-Carries}
use libpueorawdata.Rawio.RoundTrip.{
  after_head, after_read, IsClean, decoded, maybe_read_header-file, read_typed-head,
}
use libpueorawdata.Rawio.RoundTrip.Whole.{object_bytes, latest_version-lt}
use libpueorawdata.Rawio.Packet.{
  Packet, packet_init, head_type, emsgsize, require_size, read_into_payload, read_payload, ll_read,
  ll_read_realloc,
}

pub size_of-pos : (k : Kind) → 0 < size_of k
unfolding size_of
size_of-pos full_waveforms = omega arith
size_of-pos _ = omega arith

-- The header of the packet of an object.
abbrev pub object_head : Kind → Bytes → Bytes
object_head k p = encode_head (head_of k (latest_version k) (payload k p))

pub object_kind : (k : Kind) (p : Bytes) → of_code (head_type (object_head k p)) ≡ some k
unfolding make_head
object_kind k p =
    ap (λ t. of_code t.type) (decoded k (latest_version k) (payload k p))
    ∙ (of_code_iff (code k) k).1 refl

-- What a packet holds after a read, and the handle.
abbrev pub filled : Kind → Bytes → Packet → Packet
filled k p dest = record dest { head = object_head k p; payload = restored k p dest.payload }

-- What a packet holds that was allocated for what is read.
abbrev pub reallocated : Kind → Bytes → (ℕ → Bytes) → Packet
reallocated k p fresh = record {
  head = object_head k p;
  payload_capacity = size_of k;
  payload = restored k p (fresh (size_of k));
}

abbrev pub after_packet : Kind → Bytes → Bytes → Handle File → Handle File
after_packet k p rest h = record (after_read k (latest_version k) (payload k p) rest h) {
  required_read_size = 0;
}

-- The handle after the header was read, with the size of the struct noted.
abbrev pub sized : Kind → Bytes → Bytes → Handle File → Handle File
sized k p rest h = record (after_head k (latest_version k) (payload k p) (payload k p ++ rest) h) {
  required_read_size = size_of k;
}

module _ (k : Kind) (p rest : Bytes) (h : Handle File) (o : IsObject k p) where
  read_payload-fits :
      (dest : Packet)
      → size_of k ≤ dest.payload_capacity
      → length dest.payload ≡ size_of k
      → read_payload file_ops dest (sized k p rest h)
        ≡ done (pos (length (payload k p)), filled k p dest, after_packet k p rest h)
  unfolding read_payload
  read_payload-fits dest large e = rw (
    le→ltb dest.payload_capacity (size_of k) large,
    read_into_payload,
    object_kind k p,
    read_typed-head k (latest_version k) (payload k p) dest.payload rest (restored k p)
        (sized k p rest h) (object-Carries k p o).reads (latest_version-lt k) e refl refl refl,
  )

  -- The second try: the header is not read again.
  pub ll_read-sized :
      (dest : Packet)
      → size_of k ≤ dest.payload_capacity
      → length dest.payload ≡ size_of k
      → ll_read file_ops dest (sized k p rest h)
        ≡ done (pos (length (payload k p)), filled k p dest, after_packet k p rest h)
  unfolding ll_read
  ll_read-sized dest large e =
      rw (==-of_ne (size_of k) 0 (λ z. absurd (omega (arith, z, size_of-pos k))))
        (read_payload-fits dest large e)

module _ (k : Kind) (p rest : Bytes) (h : Handle File) (o : IsObject k p) (clean : IsClean h)
    (fresh_size : h.required_read_size ≡ 0) (u : h.aux.unread ≡ object_bytes k p ++ rest) where
  require_size-head :
      require_size (after_head k (latest_version k) (payload k p) (payload k p ++ rest) h)
      ≡ sized k p rest h
  unfolding require_size
  require_size-head = rw (require_size, object_kind k p)

  -- The first try comes to the check of the capacity.
  first_try :
      (dest : Packet) → ll_read file_ops dest h ≡ read_payload file_ops dest (sized k p rest h)
  unfolding ll_read
  first_try dest = rw (
    maybe_read_header-file k (latest_version k) (payload k p) (payload k p ++ rest) h clean
        (u ∙ append_assoc (object_head k p) (payload k p) rest),
    require_size-head,
    fresh_size,
  )

  pub ll_read-object :
      (dest : Packet)
      → size_of k ≤ dest.payload_capacity
      → length dest.payload ≡ size_of k
      → ll_read file_ops dest h
        ≡ done (pos (length (payload k p)), filled k p dest, after_packet k p rest h)
  ll_read-object dest large e = first_try dest ∙ read_payload-fits k p rest h o dest large e

  -- When a file goes on with the packet of an object and the given packet has less capacity than
  -- the type's struct, pueo_ll_read reads the header only and returns -EMSGSIZE: it clears the
  -- packet's header, leaves its payload, and notes the size of the struct as the required size in
  -- the handle.
  pub ll_read-small :
      (dest : Packet)
      → dest.payload_capacity < size_of k
      → ll_read file_ops dest h ≡ done (emsgsize, record dest { head = zeros 8 }, sized k p rest h)
  unfolding read_payload
  ll_read-small dest small = first_try dest ∙ rw (lt→ltb dest.payload_capacity (size_of k) small)

  -- When a file goes on with the packet of an object and the given packet is too small for the
  -- type, pueo_ll_read_realloc returns the payload's length and a packet of exactly the struct's
  -- capacity with the packet's header and the restored object; the required size is back at 0 and
  -- what stands behind the packet is left.
  pub ll_read_realloc-small :
      (fresh : ℕ → Bytes) (dest : Packet)
      → ((n : ℕ) → length (fresh n) ≡ n)
      → dest.payload_capacity < size_of k
      → ll_read_realloc fresh file_ops (some dest) h
        ≡ done (pos (length (payload k p)), reallocated k p fresh, after_packet k p rest h)
  unfolding ll_read_realloc packet_init
  ll_read_realloc-small fresh dest sizes small = rw (
    ll_read-small dest small,
    ll_read-sized k p rest h o (packet_init (size_of k) (fresh (size_of k))) (omega arith)
        (sizes (size_of k)),
  )

-- At the end of the file.
maybe_read_header-eof :
    (h : Handle File) → IsClean h → h.aux.unread ≡ [] → maybe_read_header file_ops h ≡ done (eof, h)
unfolding maybe_read_header
maybe_read_header-eof h clean u = rw (get_bytes-eof 8 h.last_read_header h u, clean.no_head)

ll_read-eof :
    (dest : Packet) (h : Handle File)
    → IsClean h
    → h.required_read_size ≡ 0
    → h.aux.unread ≡ []
    → ll_read file_ops dest h ≡ done (eof, dest, h)
unfolding ll_read
ll_read-eof dest h clean ready u = rw (maybe_read_header-eof h clean u, ready)

pub ll_read_realloc-eof :
    (fresh : ℕ → Bytes) (dest : Packet) (h : Handle File)
    → IsClean h
    → h.required_read_size ≡ 0
    → h.aux.unread ≡ []
    → ll_read_realloc fresh file_ops (some dest) h ≡ done (eof, dest, h)
unfolding ll_read_realloc
ll_read_realloc-eof fresh dest h clean ready u = rw (ll_read-eof dest h clean ready u)
