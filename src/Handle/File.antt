-- ===== src/Handle/File.antt =====
-- A handle on a `FILE *`: `file_readbytes` and `file_writebytes` of src/rawio.c over stdio's
-- `fread` and `fwrite`, which come short at the end of the file and when the medium is full.
use libpueorawdata.Prelude.{
  ℕ, [], sym, ap, ◌∙◌, drop_all, append_assoc, append-nil, length-append, ◌-◌, ◌≤◌, ◌≡◌, none, some,
  ◌++◌, length, take, drop, min, arith, take_all, take-append_of_length, drop-append_of_length,
}
use libpueorawdata.Prelude.Int.{ℤ, pos}
use libpueorawdata.Prelude.Run.{done, ◌>>=◌}
use libpueorawdata.Prelude.Memory.{Bytes, store}
use libpueorawdata.Prelude.Memory.Pieces.{store_front}
use libpueorawdata.Handle.{Handle, Ops, put_bytes, get_bytes}

-- What is still to be read, what was written, and how many bytes can still be written.
pub record File : Type 0 where
  pub unread : Bytes
  pub written : Bytes
  pub room : ℕ

unfoldable pub fread : ℕ → File → Bytes × File
fread n f = (take n f.unread, record f { unread = drop n f.unread })

unfoldable pub fwrite : Bytes → File → ℕ × File
fwrite bs f =
    let n = min (length bs) f.room in
    (n, record f { written = f.written ++ take n bs; room = f.room - n })

unfoldable pub file_writebytes : Bytes → Handle File → ℤ × Handle File
unfolding fwrite
file_writebytes bs h = let (n, f) = fwrite bs h.aux in (pos n, record h { aux = f })

unfoldable pub file_readbytes : ℕ → Handle File → ℤ × Bytes × Handle File
unfolding fread
file_readbytes n h = let (bs, f) = fread n h.aux in (pos (length bs), bs, record h { aux = f })

-- The function pointers that `pueo_handle_init_filep` sets.
unfoldable pub file_ops : Ops File
unfolding file_writebytes file_readbytes
file_ops = record {
  write_bytes = some file_writebytes;
  read_bytes = some file_readbytes;
  done_write_packet = none;
}

-- A handle after `bs` was written, and after what is left to read has become `rest`.
abbrev pub wrote : Bytes → Handle File → Handle File
wrote bs h = record h {
  aux = record h.aux { written = h.aux.written ++ bs; room = h.aux.room - length bs };
}

abbrev pub left : Bytes → Handle File → Handle File
left rest h = record h { aux = record h.aux { unread = rest } }

-- With room enough everything is written.
pub put_bytes-file :
    (bs : Bytes) (h : Handle File)
    → length bs ≤ h.aux.room
    → put_bytes file_ops bs h ≡ done (pos (length bs), wrote bs h)
unfolding put_bytes file_ops
put_bytes-file bs h fits =
    let whole : min (length bs) h.aux.room ≡ length bs = omega arith in
    rw whole (rw (take_all (length bs) bs (omega arith)))

-- With bytes enough all of `n` are read, and stored.
pub get_bytes-file :
    (n off : ℕ) (m bs rest : Bytes) (h : Handle File)
    → length bs ≡ n
    → h.aux.unread ≡ bs ++ rest
    → get_bytes file_ops n off m h ≡ (store off bs m >>= λ m'. done (pos n, m', left rest h))
unfolding get_bytes file_ops
get_bytes-file n off m bs rest h e u =
    rw (u, take-append_of_length n bs rest e, drop-append_of_length n bs rest e, e)

pub wrote-append : (xs ys : Bytes) (h : Handle File) → wrote ys (wrote xs h) ≡ wrote (xs ++ ys) h
wrote-append xs ys h =
    let room_left : h.aux.room - length xs - length ys ≡ h.aux.room - length (xs ++ ys) =
      omega (arith, length-append xs ys) in
    rw (room_left, append_assoc h.aux.written xs ys)

pub wrote-nil : (h : Handle File) → wrote [] h ≡ h
wrote-nil h =
    let room_left : h.aux.room - 0 ≡ h.aux.room = omega arith in
    rw (room_left, append-nil h.aux.written)

-- At the end of the file nothing is read.
pub get_bytes-eof :
    (n : ℕ) (m : Bytes) (h : Handle File)
    → h.aux.unread ≡ []
    → get_bytes file_ops n 0 m h ≡ done (pos 0, m, h)
unfolding get_bytes file_ops
get_bytes-eof n m h u =
    let taken : take n h.aux.unread ≡ [] = ap (λ t. take n t) u ∙ take_all n [] (omega arith) in
    let dropped : drop n h.aux.unread ≡ h.aux.unread =
      ap (λ t. drop n t) u ∙ (drop_all n [] (omega arith) ∙ sym u) in
    rw (taken, dropped, store_front [] m (omega arith))
