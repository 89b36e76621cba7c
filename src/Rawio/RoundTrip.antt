-- ===== src/Rawio/RoundTrip.antt =====
-- A packet behind its header, over a file: `pueo_read_X` undoes `pueo_write_X`.
pub mod Whole
pub mod Old
pub mod Unknown
pub mod Mismatch
use Prim.Native.Nat.{bit_xor}
use libpueorawdata.Prelude.{
  ℕ, ◌+◌, ◌-◌, ◌%◌, ◌^◌, ◌≤◌, ◌<◌, ◌≡◌, refl, sym, ap, ◌∙◌, true, false, [], ◌∷◌, ◌++◌, length,
  drop, arith, ◌==◌, ==_refl, drop_all, append-nil, append_assoc, length-append, none,
}
use libpueorawdata.Prelude.Int.{ℤ, pos, add64, is_ℕ-pos}
use libpueorawdata.Prelude.Run.{Run, done, ◌>>=◌}
use libpueorawdata.Prelude.Memory.{Bytes}
use libpueorawdata.Prelude.Memory.Pieces.{store_front}
use libpueorawdata.Crc.{crc16}
use libpueorawdata.Crc.Detect.{crc16_continue-lt}
use libpueorawdata.Datatype.{Kind, code, latest_version, size_of}
use libpueorawdata.Datatype.Codes.{code-lt}
use libpueorawdata.Handle.{Handle, get_bytes, put_bytes}
use libpueorawdata.Handle.File.{File, file_ops, wrote, left, put_bytes-file, get_bytes-file}
use libpueorawdata.Handle.Header.{
  Head, IsHead, make_head, encode_head, decode_head, decode_head-encode_head,
}
use libpueorawdata.Packets.Codec.{head_of, Reads, Writes}
use libpueorawdata.Rawio.{
  maybe_read_header, compare_heads, read_body, read_typed, finish_packet, write_typed,
}

-- The header of a payload, and the payload.
abbrev pub packet_bytes : Kind → ℕ → Bytes → Bytes
packet_bytes k ver bs = encode_head (head_of k ver bs) ++ bs

-- The handle after a header was read, with `rest` behind it.
abbrev pub after_head : Kind → ℕ → Bytes → Bytes → Handle File → Handle File
after_head k ver bs rest h = record h {
  last_read_header = encode_head (head_of k ver bs);
  already_read_head = true;
  bytes_read = add64 h.bytes_read (pos 8);
  aux = record h.aux { unread = rest };
}

-- The handle after a packet was read, with `rest` behind it.
abbrev pub after_read : Kind → ℕ → Bytes → Bytes → Handle File → Handle File
after_read k ver bs rest h = record h {
  last_read_header = encode_head (head_of k ver bs);
  already_read_head = false;
  bytes_read = add64 (add64 h.bytes_read (pos 8)) (pos (length bs));
  aux = record h.aux { unread = rest };
}

-- The handle after a packet was written.
abbrev pub after_write : Kind → Bytes → Handle File → Handle File
after_write k bs h =
    let h' = wrote bs (wrote (encode_head (head_of k (latest_version k) bs)) h) in
    record h' {
      bytes_written = add64 (add64 h.bytes_written (pos 8)) (pos (length bs));
      packet_write_counter = (h.packet_write_counter + 1) % 2 ^ 32;
    }

-- A handle that has not read a header in advance.
pub record IsClean (h : Handle File) : Type 0 where
  pub no_head : h.already_read_head ≡ false
  pub head_room : length h.last_read_header ≡ 8

crc16-lt : (bs : Bytes) → crc16 bs < 65536
unfolding crc16
crc16-lt bs = crc16_continue-lt 0xffff bs (omega arith)

head_of-IsHead : (k : Kind) (ver : ℕ) (bs : Bytes) → IsHead (head_of k ver bs)
unfolding make_head
head_of-IsHead k ver bs = record {
  type_fits = code-lt k;
  cksum_fits = crc16-lt bs;
  f1_fits = omega arith;
  version_fits = omega arith;
  num_bytes_fits = omega arith;
}

-- The header that is read back is the one that was written.
pub decoded :
    (k : Kind) (ver : ℕ) (bs : Bytes)
    → decode_head (encode_head (head_of k ver bs)) ≡ head_of k ver bs
decoded k ver bs = decode_head-encode_head (head_of k ver bs) (head_of-IsHead k ver bs)

pub maybe_read_header-file :
    (k : Kind) (ver : ℕ) (bs rest : Bytes) (h : Handle File)
    → IsClean h
    → h.aux.unread ≡ encode_head (head_of k ver bs) ++ rest
    → maybe_read_header file_ops h ≡ done (pos 8, after_head k ver bs rest h)
unfolding maybe_read_header encode_head make_head
maybe_read_header-file k ver bs rest h clean u = rw (
  get_bytes-file 8 0 h.last_read_header (encode_head (head_of k ver bs)) rest h refl u,
  store_front (encode_head (head_of k ver bs)) h.last_read_header (omega (arith, clean.head_room)),
  drop_all 8 h.last_read_header (omega (arith, clean.head_room)),
  clean.no_head,
)

-- With the header that was read computed anew, nothing is printed.
pub compare_heads-same :
    {S : Type 0} (n : ℕ) (hd : Head) (h : Handle S)
    → n ≡ hd.num_bytes
    → compare_heads (pos n) hd hd h ≡ h
unfolding compare_heads
compare_heads-same n hd h e = ground arith

pub head_of-version :
    (k : Kind) (ver : ℕ) (bs : Bytes) → ver < 16 → (head_of k ver bs).version ≡ ver
unfolding make_head
head_of-version k ver bs h = omega arith

pub head_of-num_bytes :
    (k : Kind) (ver : ℕ) (bs : Bytes)
    → length bs < 2 ^ 20
    → length bs ≡ (head_of k ver bs).num_bytes
unfolding make_head
head_of-num_bytes k ver bs h = omega arith

pub head_of-type : (k : Kind) (ver : ℕ) (bs : Bytes) → ((head_of k ver bs).type == code k) ≡ true
unfolding make_head
head_of-type k ver bs = ==_refl (code k)

-- Reading behind a header that was read.
read_body-file :
    (k : Kind) (ver : ℕ) (bs q rest : Bytes) (result : Bytes → Bytes) (h : Handle File)
    → Reads k ver bs result
    → ver < 16
    → length q ≡ size_of k
    → h.last_read_header ≡ encode_head (head_of k ver bs)
    → h.aux.unread ≡ bs ++ rest
    → read_body k file_ops q h
      ≡ done (
        pos (length bs),
        result q,
        record h {
          already_read_head = false;
          bytes_read = add64 h.bytes_read (pos (length bs));
          aux = record h.aux { unread = rest };
        },
      )
unfolding read_body compare_heads
read_body-file k ver bs q rest result h r small e head u =
    let whole : decode_head h.last_read_header ≡ head_of k ver bs =
      ap decode_head head ∙ decoded k ver bs in
    let version : (decode_head h.last_read_header).version ≡ ver =
      ap (λ t. t.version) whole ∙ head_of-version k ver bs small in
    rw (version, r.reads q rest (record h { already_read_head = false }) e u)
      (rw (version, r.header_again q e)
        (rw (
          whole,
          compare_heads-same (length bs) (head_of k ver bs) _ (head_of-num_bytes k ver bs r.small),
        )))

pub maybe_read_header-again :
    (h : Handle File) → h.already_read_head ≡ true → maybe_read_header file_ops h ≡ done (pos 0, h)
unfolding maybe_read_header
maybe_read_header-again h already = rw already

-- The same through `pueo_read_X`, when the header was read in advance.
pub read_typed-head :
    (k : Kind) (ver : ℕ) (bs q rest : Bytes) (result : Bytes → Bytes) (h : Handle File)
    → Reads k ver bs result
    → ver < 16
    → length q ≡ size_of k
    → h.already_read_head ≡ true
    → h.last_read_header ≡ encode_head (head_of k ver bs)
    → h.aux.unread ≡ bs ++ rest
    → read_typed k file_ops q h
      ≡ done (
        pos (length bs),
        result q,
        record h {
          already_read_head = false;
          bytes_read = add64 h.bytes_read (pos (length bs));
          aux = record h.aux { unread = rest };
        },
      )
unfolding read_typed
read_typed-head k ver bs q rest result h r small e already head u =
    let type : ((decode_head h.last_read_header).type == code k) ≡ true =
      ap (λ t. (decode_head t).type == code k) head
      ∙ (ap (λ t. t.type == code k) (decoded k ver bs) ∙ head_of-type k ver bs) in
    rw (maybe_read_header-again h already, type)
      (read_body-file k ver bs q rest result h r small e head u)

-- A packet whose payload is one of the version's is read whole: the result is the number of the
-- payload's bytes, the object holds it, exactly the packet is taken from the file, and nothing is
-- printed.
pub read_typed-file :
    (k : Kind) (ver : ℕ) (bs q rest : Bytes) (result : Bytes → Bytes) (h : Handle File)
    → Reads k ver bs result
    → ver < 16
    → length q ≡ size_of k
    → IsClean h
    → h.aux.unread ≡ packet_bytes k ver bs ++ rest
    → read_typed k file_ops q h ≡ done (pos (length bs), result q, after_read k ver bs rest h)
unfolding read_typed
read_typed-file k ver bs q rest result h r small e clean u =
    rw
      (
        maybe_read_header-file k ver bs (bs ++ rest) h clean
            (u ∙ append_assoc (encode_head (head_of k ver bs)) bs rest),
        decoded k ver bs,
        head_of-type k ver bs,
      )
      (read_body-file k ver bs q rest result (after_head k ver bs (bs ++ rest) h) r small e refl
        refl)

-- With room enough a packet is written whole: its header, its payload, and nothing else.
pub write_typed-file :
    (k : Kind) (p bs : Bytes) (h : Handle File)
    → Writes k p bs
    → 8 + length bs ≤ h.aux.room
    → write_typed k file_ops p h ≡ done (pos (8 + length bs), after_write k bs h)
unfolding write_typed finish_packet file_ops encode_head
write_typed-file k p bs h w fits = rw (
  w.header,
  put_bytes-file (encode_head (head_of k (latest_version k) bs)) h (omega arith),
  w.writes
      (record (wrote (encode_head (head_of k (latest_version k) bs)) h) {
        bytes_written = add64 h.bytes_written (pos 8);
      })
      (omega arith),
)
