-- ===== src/Packets/Waveform/Pieces.antt =====
-- One waveform inside a packet, over a file: `hd` are its first four bytes, which say how many
-- samples there are, and `ss` the bytes of the samples.
use libpueorawdata.Prelude.{
  ℕ, ◌+◌, ◌*◌, ◌%◌, ◌^◌, ◌≤◌, ◌<◌, ◌≡◌, refl, ap, ◌∙◌, ◌++◌, length, drop, arith, ltb,
  if◌then◌else◌, length-append, length-drop, append_assoc, ==_refl, drop-drop,
}
use libpueorawdata.Prelude.Int.{pos}
use libpueorawdata.Prelude.Run.{done}
use libpueorawdata.Prelude.Memory.{Bytes, u16_at}
use libpueorawdata.Prelude.Memory.Pieces.{load_piece, store_piece, u16_at-append, u16_at-behind}
use libpueorawdata.Handle.{Handle}
use libpueorawdata.Handle.File.{File, file_ops, wrote, left, put_bytes-file, get_bytes-file}
use libpueorawdata.Crc.{crc16_continue}
use libpueorawdata.Packets.Waveform.{
  waveform_data, checked_length, waveform_size, write_waveform, read_waveform,
  update_len_cksum_waveform,
}

-- A waveform that says how long it is.
pub record IsWaveform (hd ss : Bytes) : Type 0 where
  pub head_length : length hd ≡ 4
  pub sample_length : checked_length hd 0 * 2 ≡ length ss

pub waveform_data_lem : waveform_data ≡ 4
unfolding waveform_data
waveform_data_lem = refl

-- The length is read from the waveform's own bytes, wherever it stands.
checked_length-piece :
    (at : ℕ) (front hd x : Bytes)
    → length front ≡ at
    → length hd ≡ 4
    → checked_length (front ++ (hd ++ x)) at ≡ checked_length hd 0
unfolding checked_length
checked_length-piece at front hd x e four =
    let member : u16_at (front ++ (hd ++ x)) (at + 2) ≡ u16_at hd (0 + 2) =
      u16_at-behind at 2 front (hd ++ x) e ∙ u16_at-append 2 hd x (omega arith) in
    ap (λ t. if ltb 1024 t then 1024 else t) member

module _ (hd ss : Bytes) (w : IsWaveform hd ss) where
  pub waveform_bound : length (hd ++ ss) ≤ 2052
  unfolding checked_length
  waveform_bound = ground (arith, length-append hd ss, w.head_length, w.sample_length)

  waveform_size-piece :
      (at : ℕ) (front x : Bytes)
      → length front ≡ at
      → waveform_size (front ++ ((hd ++ ss) ++ x)) at ≡ length (hd ++ ss)
  unfolding waveform_size
  waveform_size-piece at front x e =
      rw (append_assoc hd ss x, checked_length-piece at front hd (ss ++ x) e w.head_length)
        (omega (arith, length-append hd ss, w.head_length, w.sample_length, waveform_data_lem))

  pub write_waveform-file :
      (at : ℕ) (front x : Bytes) (h : Handle File)
      → length front ≡ at
      → length (hd ++ ss) ≤ h.aux.room
      → write_waveform file_ops (front ++ ((hd ++ ss) ++ x)) at h
        ≡ done (pos (length (hd ++ ss)), wrote (hd ++ ss) h)
  unfolding write_waveform
  write_waveform-file at front x h e fits = rw (
    waveform_size-piece at front x e,
    load_piece at (length (hd ++ ss)) front (hd ++ ss) x e refl,
    put_bytes-file (hd ++ ss) h fits,
  )

  pub update-piece :
      (len crc at : ℕ) (front x : Bytes)
      → length front ≡ at
      → len + length (hd ++ ss) < 2 ^ 32
      → update_len_cksum_waveform len crc (front ++ ((hd ++ ss) ++ x)) at
        ≡ done (len + length (hd ++ ss), crc16_continue crc (hd ++ ss))
  unfolding update_len_cksum_waveform
  update-piece len crc at front x e small =
      let no_wrap : (len + length (hd ++ ss)) % 2 ^ 32 ≡ len + length (hd ++ ss) = omega arith in
      rw (
        waveform_size-piece at front x e,
        load_piece at (length (hd ++ ss)) front (hd ++ ss) x e refl,
        no_wrap,
      )

  -- The waveform is read over what stands at its place.
  pub read_waveform-file :
      (at : ℕ) (front tail rest : Bytes) (h : Handle File)
      → length front ≡ at
      → length (hd ++ ss) ≤ length tail
      → h.aux.unread ≡ (hd ++ ss) ++ rest
      → read_waveform file_ops (front ++ tail) at h
        ≡ done (
          pos (length (hd ++ ss)),
          front ++ ((hd ++ ss) ++ drop (length (hd ++ ss)) tail),
          left rest h,
        )
  unfolding read_waveform
  read_waveform-file at front tail rest h e fits u =
      let total : 4 + length ss ≡ length (hd ++ ss) =
        omega (arith, length-append hd ss, w.head_length) in
      let place : length (front ++ hd) ≡ at + 4 =
        omega (arith, length-append front hd, w.head_length) in
      rw (
        waveform_data_lem,
        get_bytes-file 4 at (front ++ tail) hd (ss ++ rest) h w.head_length
            (u ∙ append_assoc hd ss rest),
        store_piece at front hd tail e
            (omega (arith, w.head_length, waveform_bound, length-append hd ss)),
        w.head_length,
        checked_length-piece at front hd (drop 4 tail) e w.head_length,
        w.sample_length,
        get_bytes-file (length ss) (at + 4) (front ++ (hd ++ drop 4 tail)) ss rest
            (left (ss ++ rest) h) refl refl,
        ← append_assoc front hd (drop 4 tail),
        store_piece (at + 4) (front ++ hd) ss (drop 4 tail) place
            (omega (arith, length-drop 4 tail, length-append hd ss, w.head_length)),
        ==_refl (4 + length ss),
        drop-drop 4 (length ss) tail,
        total,
        append_assoc front hd (ss ++ drop (length (hd ++ ss)) tail),
        append_assoc hd ss (drop (length (hd ++ ss)) tail),
      )
