-- ===== src/Handle.antt =====
-- `pueo_handle_t` of inc/pueo/rawio.h: the state of a stream of packets, and the functions through
-- which bytes reach it. The library keeps one of these per open file or socket.
pub mod File
pub mod Header
pub mod Socket
pub mod Init
pub mod Device
pub mod Open
use libpueorawdata.Prelude.{ℕ, ◌+◌, ◌%◌, ◌^◌, Bool, false, Option, none, some, List, []}
use libpueorawdata.Prelude.Int.{ℤ}
use libpueorawdata.Prelude.Run.{Run, done, fault, null_call, ◌>>=◌}
use libpueorawdata.Prelude.Memory.{Bytes, zeros, store}

-- What `pueo_read_X` prints on stderr.
pub data Warning : Type 0 where
  checksum_failed length_failed : Warning

-- `S` is what `aux` points to. `already_read_head` is the one bit of `flags` that
-- `enum pueo_handle_flags` defines, and `log` what was printed, the latest first. The header is kept
-- as the eight bytes that it occupies, since a short read may replace some of them only.
pub record Handle (S : Type 0) : Type 0 where
  pub packet_write_counter : ℕ
  pub last_read_header : Bytes
  pub required_read_size : ℕ
  pub already_read_head : Bool
  pub bytes_written : ℕ
  pub bytes_read : ℕ
  pub aux : S
  pub log : List Warning

-- The function pointers; `none` is a null pointer. A read returns its result and the bytes that
-- it put at the start of the buffer.
pub record Ops (S : Type 0) : Type 0 where
  pub write_bytes : Option (Bytes → Handle S → ℤ × Handle S)
  pub read_bytes : Option (ℕ → Handle S → ℤ × Bytes × Handle S)
  pub done_write_packet : Option (Handle S → ℤ × Handle S)

-- `hinit`: a handle of zeros, to which an initialiser then gives `aux`.
unfoldable pub hinit : {S : Type 0} → S → Handle S
hinit s = record {
  packet_write_counter = 0;
  last_read_header = zeros 8;
  required_read_size = 0;
  already_read_head = false;
  bytes_written = 0;
  bytes_read = 0;
  aux = s;
  log = [];
}

-- `h->write_bytes(n, bytes, h)`.
unfoldable pub put_bytes : {S : Type 0} → Ops S → Bytes → Handle S → Run (ℤ × Handle S)
put_bytes ops bs h = elim ops.write_bytes [ none ↦ fault null_call | some f ↦ done (f bs h) ]

-- `h->read_bytes(n, m + off, h)`, where `m` is the object that is read into.
unfoldable pub get_bytes :
    {S : Type 0} → Ops S → ℕ → ℕ → Bytes → Handle S → Run (ℤ × Bytes × Handle S)
get_bytes ops n off m h = elim ops.read_bytes [
  | none ↦ fault null_call
  | some f ↦ let (r, bs, h') = f n h in store off bs m >>= λ m'. done (r, m', h')
]
