-- ===== src/Packets/Waveform/Single.antt =====
-- The single-waveform packet keeps the promises of `Codec`: `fs` is the part in front of the
-- waveform, and `hd` and `ss` are the waveform.
use libpueorawdata.Prelude.{
  ℕ, ◌+◌, ◌-◌, ◌^◌, ◌≤◌, ◌<◌, ◌≡◌, refl, ◌∙◌, ◌++◌, length, drop, arith, length-append, length-drop,
  append_assoc, ==_refl,
}
use libpueorawdata.Prelude.Run.{done}
use libpueorawdata.Prelude.Memory.{Bytes}
use libpueorawdata.Prelude.Memory.Pieces.{load_front, store_front}
use libpueorawdata.Datatype.{single_waveform, size_of, member_at, latest_version}
use libpueorawdata.Handle.File.{wrote, left, put_bytes-file, get_bytes-file}
use libpueorawdata.Crc.{crc16, crc16_start, crc16_continue}
use libpueorawdata.Crc.Detect.{crc16_continue-append}
use libpueorawdata.Packets.Waveform.{
  single_front, header_for_single_waveform, write_single_waveform, read_single_waveform,
}
use libpueorawdata.Packets.Waveform.Pieces.{
  IsWaveform, waveform_bound, write_waveform-file, update-piece, read_waveform-file,
}
use libpueorawdata.Packets.Dispatch.{packet_header_for, write_packet, read_packet}
use libpueorawdata.Packets.Codec.{head_of, Reads, Writes}

abbrev pub single_at : ℕ
single_at = member_at single_waveform "wf"

pub single_room : (single_at + 2052 ≤ size_of single_waveform) × (single_at < 2 ^ 16)
unfolding member_at size_of
single_room = omega arith

module _ (fs hd ss : Bytes) (front : length fs ≡ single_at) (w : IsWaveform hd ss) where
  single_header :
      (x : Bytes)
      → packet_header_for single_waveform (fs ++ ((hd ++ ss) ++ x)) 2
        ≡ done (head_of single_waveform 2 (fs ++ (hd ++ ss)))
  unfolding packet_header_for header_for_single_waveform single_front crc16
  single_header x =
      let total : single_at + length (hd ++ ss) ≡ length (fs ++ (hd ++ ss)) =
        omega (arith, length-append fs (hd ++ ss)) in
      rw (
        load_front single_at fs ((hd ++ ss) ++ x) front,
        update-piece hd ss w single_at (crc16_continue crc16_start fs) single_at fs x front
            (omega (arith, single_room, waveform_bound hd ss w)),
        ← crc16_continue-append crc16_start fs (hd ++ ss),
        total,
      )

  pub single-Writes :
      (x : Bytes) → Writes single_waveform (fs ++ ((hd ++ ss) ++ x)) (fs ++ (hd ++ ss))
  unfolding write_packet write_single_waveform latest_version
  single-Writes x = record {
    header = single_header x;
    writes = λ h room.
        let total : length fs + length (hd ++ ss) ≡ length (fs ++ (hd ++ ss)) =
          omega (arith, length-append fs (hd ++ ss)) in
        let room_left : h.aux.room - length fs - length (hd ++ ss)
            ≡ h.aux.room - length (fs ++ (hd ++ ss)) =
          omega (arith, length-append fs (hd ++ ss)) in
        rw (
          load_front single_at fs ((hd ++ ss) ++ x) front,
          put_bytes-file fs h (omega (arith, length-append fs (hd ++ ss))),
          write_waveform-file hd ss w single_at fs x (wrote fs h) front
              (omega (arith, length-append fs (hd ++ ss))),
          total,
          room_left,
          append_assoc h.aux.written fs (hd ++ ss),
        );
  }

  -- The object keeps what stands behind the waveform.
  abbrev pub single_over : Bytes → Bytes
  single_over q = fs ++ ((hd ++ ss) ++ drop (length (hd ++ ss)) (drop single_at q))

  pub single-Reads : Reads single_waveform 2 (fs ++ (hd ++ ss)) single_over
  unfolding read_packet read_single_waveform single_front
  single-Reads = record {
    small = omega (arith, single_room, waveform_bound hd ss w, length-append fs (hd ++ ss));
    reads = λ q rest h e u.
        let total : single_at + length (hd ++ ss) ≡ length (fs ++ (hd ++ ss)) =
          omega (arith, length-append fs (hd ++ ss)) in
        rw (
          get_bytes-file single_at 0 q fs ((hd ++ ss) ++ rest) h front
              (u ∙ append_assoc fs (hd ++ ss) rest),
          store_front fs q (omega (arith, single_room)),
          front,
          ==_refl single_at,
          read_waveform-file hd ss w single_at fs (drop single_at q) rest
              (left ((hd ++ ss) ++ rest) h) front
              (omega (arith, single_room, waveform_bound hd ss w, length-drop single_at q)) refl,
          total,
        );
    header_again = λ q e. single_header _;
  }
