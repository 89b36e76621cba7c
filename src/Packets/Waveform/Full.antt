-- ===== src/Packets/Waveform/Full.antt =====
-- The packet of all channels keeps the promises of `Codec`: `fs` is the part in front of the array,
-- and `bs` are the blocks of the array.
use libpueorawdata.Prelude.{
  ℕ, ◌+◌, ◌-◌, ◌*◌, ◌^◌, ◌≤◌, ◌<◌, ◌≡◌, refl, sym, ap, ◌∙◌, List, ◌++◌, length, drop, arith,
  length-append, length-drop, append_assoc, ==_refl, subst,
}
use libpueorawdata.Prelude.Int.{pos}
use libpueorawdata.Prelude.Run.{done}
use libpueorawdata.Prelude.Memory.{Bytes}
use libpueorawdata.Prelude.Memory.Pieces.{load_front, store_front}
use libpueorawdata.Layout.{sizeof}
use libpueorawdata.Geometry.{nchan}
use libpueorawdata.Formats.Event.{waveform_t}
use libpueorawdata.Datatype.{full_waveforms, size_of, member_at, latest_version}
use libpueorawdata.Handle.File.{file_ops, wrote, left, put_bytes-file, get_bytes-file}
use libpueorawdata.Crc.{crc16, crc16_start, crc16_continue}
use libpueorawdata.Crc.Detect.{crc16_continue-append}
use libpueorawdata.Packets.Waveform.{
  full_front, channel_at, sum_channels, write_channels, read_channels, header_for_full_waveforms,
  write_full_waveforms, read_full_waveforms,
}
use libpueorawdata.Packets.Waveform.Blocks.{
  Block, AreBlocks, memory, waves, read_over, waves-bound, read_over-AreBlocks, length-read_over,
  waves-read_over,
}
use libpueorawdata.Packets.Waveform.Channels.{
  write_channels-file, sum_channels_lem, read_channels-file, after_blocks, after_blocks_lem,
}
use libpueorawdata.Packets.Dispatch.{packet_header_for, write_packet, read_packet}
use libpueorawdata.Packets.Codec.{head_of, Reads, Writes}

abbrev pub full_at : ℕ
full_at = member_at full_waveforms "wfs"

pub full_room :
    (full_at + 224 * 2052 ≡ size_of full_waveforms)
    × (channel_at 0 ≡ full_at)
    × (size_of full_waveforms < 2 ^ 20)
unfolding member_at size_of channel_at sizeof waveform_t
full_room = omega arith

module _ (fs : Bytes) (bs : List Block) (front : length fs ≡ full_at) (v : AreBlocks bs)
    (count : length bs ≡ nchan) where
  first_channel : length fs ≡ channel_at 0
  first_channel = front ∙ sym full_room.1

  -- The header is computed from the waveforms, whatever stands behind them in their blocks.
  full_header :
      (cs : List Block) (x : Bytes)
      → AreBlocks cs
      → length cs ≡ nchan
      → packet_header_for full_waveforms (fs ++ (memory cs ++ x)) 1
        ≡ done (head_of full_waveforms 1 (fs ++ waves cs))
  unfolding packet_header_for header_for_full_waveforms full_front crc16
  full_header cs x vs all =
      let total : full_at + length (waves cs) ≡ length (fs ++ waves cs) =
        omega (arith, length-append fs (waves cs)) in
      let sums : sum_channels nchan 0 full_at (crc16_continue crc16_start fs)
            (fs ++ (memory cs ++ x))
          ≡ done (
            full_at + length (waves cs),
            crc16_continue (crc16_continue crc16_start fs) (waves cs),
          ) =
        ap (λ n. sum_channels n 0 full_at (crc16_continue crc16_start fs) (fs ++ (memory cs ++ x)))
          (sym all)
        ∙ sum_channels_lem cs 0 full_at (crc16_continue crc16_start fs) fs x _ vs first_channel refl
            (omega (arith, full_room, waves-bound cs vs)) in
      rw (
        load_front full_at fs (memory cs ++ x) front,
        sums,
        ← crc16_continue-append crc16_start fs (waves cs),
        total,
      )

  full_written :
      (cs : List Block)
      → AreBlocks cs
      → length cs ≡ nchan
      → (x : Bytes) → Writes full_waveforms (fs ++ (memory cs ++ x)) (fs ++ waves cs)
  unfolding write_packet write_full_waveforms latest_version
  full_written cs vs all x = record {
    header = full_header cs x vs all;
    writes = λ h room.
        let total : length fs + length (waves cs) ≡ length (fs ++ waves cs) =
          omega (arith, length-append fs (waves cs)) in
        let room_left : h.aux.room - length fs - length (waves cs)
            ≡ h.aux.room - length (fs ++ waves cs) =
          omega (arith, length-append fs (waves cs)) in
        let whole : write_channels nchan file_ops 0 (pos (length fs)) (fs ++ (memory cs ++ x))
              (wrote fs h)
            ≡ done (pos (length fs + length (waves cs)), wrote (waves cs) (wrote fs h)) =
          ap
            (λ n.
              write_channels n file_ops 0 (pos (length fs)) (fs ++ (memory cs ++ x)) (wrote fs h))
            (sym all)
          ∙ write_channels-file cs 0 (length fs) fs x _ (wrote fs h) vs first_channel refl
              (omega (arith, length-append fs (waves cs))) in
        rw (
          load_front full_at fs (memory cs ++ x) front,
          put_bytes-file fs h (omega (arith, length-append fs (waves cs))),
          whole,
          total,
          room_left,
          append_assoc h.aux.written fs (waves cs),
        );
  }

  pub full-Writes : (x : Bytes) → Writes full_waveforms (fs ++ (memory bs ++ x)) (fs ++ waves bs)
  full-Writes = full_written bs v count

  -- The blocks keep what stands behind their waveforms.
  abbrev pub full_over : Bytes → Bytes
  full_over q = fs ++ after_blocks bs (drop full_at q)

  pub full-Reads : Reads full_waveforms 1 (fs ++ waves bs) full_over
  unfolding read_packet read_full_waveforms full_front
  full-Reads = record {
    small = omega (arith, full_room, waves-bound bs v, length-append fs (waves bs));
    reads = λ q rest h e u.
        let total : full_at + length (waves bs) ≡ length (fs ++ waves bs) =
          omega (arith, length-append fs (waves bs)) in
        let all : read_channels nchan file_ops 0 (pos full_at) (fs ++ drop full_at q)
              (left (waves bs ++ rest) h)
            ≡ done (pos (full_at + length (waves bs)), full_over q, left rest h) =
          ap
            (λ n.
              read_channels n file_ops 0 (pos full_at) (fs ++ drop full_at q)
                (left (waves bs ++ rest) h))
            (sym count)
          ∙ read_channels-file bs 0 full_at fs (drop full_at q) rest (left (waves bs ++ rest) h) v
              first_channel (omega (arith, full_room, count, length-drop full_at q)) refl in
        rw (
          get_bytes-file full_at 0 q fs (waves bs ++ rest) h front
              (u ∙ append_assoc fs (waves bs) rest),
          store_front fs q (omega (arith, full_room)),
          front,
          ==_refl full_at,
          all,
          total,
        );
    header_again = λ q e.
        let room : length bs * 2052 ≤ length (drop full_at q) =
          omega (arith, full_room, count, length-drop full_at q) in
        ap (λ t. packet_header_for full_waveforms (fs ++ t) 1)
          (after_blocks_lem bs (drop full_at q))
        ∙ full_header (read_over bs (drop full_at q)) (drop (length bs * 2052) (drop full_at q))
            (read_over-AreBlocks bs (drop full_at q) v room)
            (length-read_over bs (drop full_at q) ∙ count)
        ∙ ap (λ t. done (head_of full_waveforms 1 (fs ++ t))) (waves-read_over bs (drop full_at q));
  }

  -- What was read is written as it was.
  pub full-Writes_again :
      (q : Bytes)
      → length q ≡ size_of full_waveforms
      → Writes full_waveforms (full_over q) (fs ++ waves bs)
  full-Writes_again q e =
      let m = drop full_at q in
      let room : length bs * 2052 ≤ length (drop full_at q) =
        omega (arith, full_room, count, length-drop full_at q) in
      subst (λ t. Writes full_waveforms (fs ++ t) (fs ++ waves bs)) (sym (after_blocks_lem bs m))
        (subst
          (λ t.
            Writes full_waveforms (fs ++ (memory (read_over bs m) ++ drop (length bs * 2052) m))
              (fs ++ t))
          (waves-read_over bs m)
          (full_written (read_over bs m) (read_over-AreBlocks bs m v room)
            (length-read_over bs m ∙ count) (drop (length bs * 2052) m)))
