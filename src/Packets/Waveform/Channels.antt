-- ===== src/Packets/Waveform/Channels.antt =====
-- The loops over the channels of a packet, from some channel on, over a file.
use libpueorawdata.Prelude.{
  ℕ, ◌+◌, ◌-◌, ◌*◌, ◌^◌, ◌≤◌, ◌<◌, ◌≡◌, refl, sym, ap, ◌∙◌, List, [], ◌∷◌, ◌++◌, length, drop, take,
  arith, length-append, length-drop, append_assoc, drop-drop, take-append-drop,
}
use libpueorawdata.Prelude.Int.{pos}
use libpueorawdata.Prelude.Run.{done}
use libpueorawdata.Prelude.Memory.{Bytes}
use libpueorawdata.Layout.{sizeof}
use libpueorawdata.Formats.Event.{waveform_t}
use libpueorawdata.Handle.{Handle}
use libpueorawdata.Handle.File.{File, file_ops, wrote, wrote-nil, wrote-append, left}
use libpueorawdata.Crc.{crc16_continue}
use libpueorawdata.Crc.Detect.{crc16_continue-append}
use libpueorawdata.Packets.Waveform.{
  channel_at, write_waveform, read_waveform, update_len_cksum_waveform, sum_channels,
  write_channels, read_channels,
}
use libpueorawdata.Packets.Waveform.Pieces.{write_waveform-file, update-piece, read_waveform-file}
use libpueorawdata.Packets.Waveform.Blocks.{
  Block, IsBlock, AreBlocks, wave, memory, waves, padded, padded-IsBlock, wave-bound, read_over,
}

pub channel_at-next : (i : ℕ) → channel_at (i + 1) ≡ channel_at i + 2052
unfolding channel_at sizeof waveform_t
channel_at-next i = omega arith

module _ (b : Block) (v : IsBlock b) (front x : Bytes) where
  -- A block and what stands behind it, seen from its waveform and from the next block.
  at_wave :
      (m : Bytes)
      → front ++ (((wave b ++ b.pad) ++ m) ++ x) ≡ front ++ (wave b ++ (b.pad ++ (m ++ x)))
  at_wave m =
      ap (λ t. front ++ t)
        (append_assoc (wave b ++ b.pad) m x ∙ append_assoc (wave b) b.pad (m ++ x))

  at_next :
      (m : Bytes)
      → front ++ (((wave b ++ b.pad) ++ m) ++ x) ≡ (front ++ (wave b ++ b.pad)) ++ (m ++ x)
  at_next m =
      ap (λ t. front ++ t) (append_assoc (wave b ++ b.pad) m x)
      ∙ sym (append_assoc front (wave b ++ b.pad) (m ++ x))

  next_front :
      (i : ℕ)
      → length front ≡ channel_at i
      → length (front ++ (wave b ++ b.pad)) ≡ channel_at (i + 1)
  next_front i e =
      omega (arith, length-append front (wave b ++ b.pad), v.block_length, channel_at-next i)

pub write_channels-file :
    (bs : List Block) (i n : ℕ) (front x p : Bytes) (h : Handle File)
    → AreBlocks bs
    → length front ≡ channel_at i
    → p ≡ front ++ (memory bs ++ x)
    → length (waves bs) ≤ h.aux.room
    → write_channels (length bs) file_ops i (pos n) p h
      ≡ done (pos (n + length (waves bs)), wrote (waves bs) h)
unfolding write_channels
write_channels-file [] i n front x p h v e whole fits =
    let total : n + 0 ≡ n = omega arith in rw (total, wrote-nil h)
write_channels-file (b ∷ bs) i n front x p h v e whole fits =
    let step : write_waveform file_ops p (channel_at i) h
        ≡ done (pos (length (wave b)), wrote (wave b) h) =
      ap (λ t. write_waveform file_ops t (channel_at i) h)
        (whole ∙ at_wave b v.0 front x (memory bs))
      ∙ write_waveform-file b.hd b.ss v.0.is_waveform (channel_at i) front
          (b.pad ++ (memory bs ++ x)) h e (omega (arith, length-append (wave b) (waves bs))) in
    let total : n + length (wave b) + length (waves bs) ≡ n + length (wave b ++ waves bs) =
      omega (arith, length-append (wave b) (waves bs)) in
    rw step (
      write_channels-file bs (i + 1) (n + length (wave b)) (front ++ (wave b ++ b.pad)) x p
        (wrote (wave b) h) v.1 (next_front b v.0 front x i e)
        (whole ∙ at_next b v.0 front x (memory bs))
        (omega (arith, length-append (wave b) (waves bs)))
      ∙ rw (total, wrote-append (wave b) (waves bs) h))

pub sum_channels_lem :
    (bs : List Block) (i len crc : ℕ) (front x p : Bytes)
    → AreBlocks bs
    → length front ≡ channel_at i
    → p ≡ front ++ (memory bs ++ x)
    → len + length (waves bs) < 2 ^ 32
    → sum_channels (length bs) i len crc p
      ≡ done (len + length (waves bs), crc16_continue crc (waves bs))
unfolding sum_channels
sum_channels_lem [] i len crc front x p v e whole small =
    let total : len + 0 ≡ len = omega arith in rw total (unfold crc16_continue in refl)
sum_channels_lem (b ∷ bs) i len crc front x p v e whole small =
    let step : update_len_cksum_waveform len crc p (channel_at i)
        ≡ done (len + length (wave b), crc16_continue crc (wave b)) =
      ap (λ t. update_len_cksum_waveform len crc t (channel_at i))
        (whole ∙ at_wave b v.0 front x (memory bs))
      ∙ update-piece b.hd b.ss v.0.is_waveform len crc (channel_at i) front
          (b.pad ++ (memory bs ++ x)) e (omega (arith, length-append (wave b) (waves bs))) in
    let total : len + length (wave b) + length (waves bs) ≡ len + length (wave b ++ waves bs) =
      omega (arith, length-append (wave b) (waves bs)) in
    rw step (
      sum_channels_lem bs (i + 1) (len + length (wave b)) (crc16_continue crc (wave b))
        (front ++ (wave b ++ b.pad)) x p v.1 (next_front b v.0 front x i e)
        (whole ∙ at_next b v.0 front x (memory bs))
        (omega (arith, length-append (wave b) (waves bs)))
      ∙ rw (total, crc16_continue-append crc (wave b) (waves bs)))

-- The bytes behind a waveform that was read: the rest of its block, and the blocks after it.
behind_wave :
    (b : Block) (v : IsBlock b) (front q : Bytes)
    → front ++ (wave b ++ drop (length (wave b)) q)
      ≡ (front ++ (wave b ++ (padded b q).pad)) ++ drop 2052 q
behind_wave b v front q =
    let n = length (wave b) in
    let block : n + (2052 - n) ≡ 2052 = omega (arith, wave-bound b v) in
    ap (λ t. front ++ (wave b ++ t))
      (sym (take-append-drop (2052 - n) (drop n q))
        ∙ ap (λ t. take (2052 - n) (drop n q) ++ t)
            (drop-drop n (2052 - n) q ∙ ap (λ m. drop m q) block))
    ∙ ap (λ t. front ++ t) (sym (append_assoc (wave b) (padded b q).pad (drop 2052 q)))
    ∙ sym (append_assoc front (wave b ++ (padded b q).pad) (drop 2052 q))

-- What the loop leaves of the object: the blocks read over the bytes `q`, and what is behind them.
abbrev pub after_blocks : List Block → Bytes → Bytes
after_blocks [] q = q
after_blocks (b ∷ bs) q = (wave b ++ (padded b q).pad) ++ after_blocks bs (drop 2052 q)

pub read_channels-file :
    (bs : List Block) (i n : ℕ) (front q rest : Bytes) (h : Handle File)
    → AreBlocks bs
    → length front ≡ channel_at i
    → length bs * 2052 ≤ length q
    → h.aux.unread ≡ waves bs ++ rest
    → read_channels (length bs) file_ops i (pos n) (front ++ q) h
      ≡ done (pos (n + length (waves bs)), front ++ after_blocks bs q, left rest h)
unfolding read_channels
read_channels-file [] i n front q rest h v e fits u =
    let total : n + 0 ≡ n = omega arith in rw (total, u)
read_channels-file (b ∷ bs) i n front q rest h v e fits u =
    let step : read_waveform file_ops (front ++ q) (channel_at i) h
        ≡ done (
          pos (length (wave b)),
          front ++ (wave b ++ drop (length (wave b)) q),
          left (waves bs ++ rest) h,
        ) =
      read_waveform-file b.hd b.ss v.0.is_waveform (channel_at i) front q (waves bs ++ rest) h e
        (omega (arith, wave-bound b v.0)) (u ∙ append_assoc (wave b) (waves bs) rest) in
    let total : n + length (wave b) + length (waves bs) ≡ n + length (wave b ++ waves bs) =
      omega (arith, length-append (wave b) (waves bs)) in
    rw (step, behind_wave b v.0 front q)
      (read_channels-file bs (i + 1) (n + length (wave b)) (front ++ (wave b ++ (padded b q).pad))
          (drop 2052 q) rest (left (waves bs ++ rest) h) v.1
          (next_front (padded b q) (padded-IsBlock b q v.0 (omega arith)) front q i e)
          (omega (arith, length-drop 2052 q)) refl
        ∙ rw (
          total,
          append_assoc front (wave b ++ (padded b q).pad) (after_blocks bs (drop 2052 q)),
        ))

pub after_blocks_lem :
    (bs : List Block) (q : Bytes)
    → after_blocks bs q ≡ memory (read_over bs q) ++ drop (length bs * 2052) q
after_blocks_lem [] q = refl
after_blocks_lem (b ∷ bs) q =
    let total : 2052 + length bs * 2052 ≡ length (b ∷ bs) * 2052 = omega arith in
    ap (λ t. (wave b ++ (padded b q).pad) ++ t)
      (after_blocks_lem bs (drop 2052 q)
        ∙ ap (λ t. memory (read_over bs (drop 2052 q)) ++ t)
            (drop-drop 2052 (length bs * 2052) q ∙ ap (λ n. drop n q) total))
    ∙ sym (
        append_assoc (wave b ++ (padded b q).pad) (memory (read_over bs (drop 2052 q)))
          (drop (length (b ∷ bs) * 2052) q))
