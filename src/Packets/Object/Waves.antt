-- ===== src/Packets/Object/Waves.antt =====
-- The objects with waveforms are carried by their payloads.
use libpueorawdata.Prelude.{
  ◌+◌, ◌*◌, ◌≡◌, ap, ◌∙◌, ◌++◌, length, take, drop, arith, subst, length-drop, take-append-drop,
}
use libpueorawdata.Prelude.Memory.{Bytes}
use libpueorawdata.Geometry.{nchan}
use libpueorawdata.Datatype.{full_waveforms, single_waveform, latest_version}
use libpueorawdata.Packets.Waveform.Blocks.{wave, waves, memory}
use libpueorawdata.Packets.Waveform.Split.{
  block_of, blocks_of, block_of-IsWaveform, blocks_of-AreBlocks, length-blocks_of, memory-blocks_of,
  wave-block_of, sample_bytes,
}
use libpueorawdata.Packets.Waveform.Single.{single_at, single_room, single-Reads, single-Writes}
use libpueorawdata.Packets.Waveform.Full.{
  full_at, full_room, full-Reads, full-Writes, full-Writes_again,
}
use libpueorawdata.Packets.Codec.{Writes}
use libpueorawdata.Packets.Object.{IsObject, payload, restored}
use libpueorawdata.Packets.Object.Parts.{length-take_within}
use libpueorawdata.Packets.Object.Carrier.{Carries}

pub single_waveform-Carries :
    (p : Bytes)
    → IsObject single_waveform p
    → Carries single_waveform p (payload single_waveform p) (restored single_waveform p)
unfolding latest_version payload restored
single_waveform-Carries p o =
    let m = drop single_at p in
    let fs = take single_at p in
    let w = block_of m in
    let front : length (take single_at p) ≡ single_at =
      length-take_within single_at p (omega (arith, single_room, o.object_size)) in
    let wf =
      block_of-IsWaveform m (omega (arith, single_room, o.object_size, length-drop single_at p)) in
    let whole : take single_at p ++ (wave (block_of m) ++ drop (4 + sample_bytes m) m) ≡ p =
      ap (λ t. take single_at p ++ (t ++ drop (4 + sample_bytes m) m)) (wave-block_of m)
      ∙ (ap (λ t. take single_at p ++ t) (take-append-drop (4 + sample_bytes m) m)
          ∙ take-append-drop single_at p) in
    record {
      writes =
          subst (λ t. Writes single_waveform t (fs ++ wave w)) whole
            (single-Writes fs w.hd w.ss front wf (drop (4 + sample_bytes m) m));
      reads = single-Reads fs w.hd w.ss front wf;
      writes_again = λ q _. single-Writes fs w.hd w.ss front wf _;
    }

pub full_waveforms-Carries :
    (p : Bytes)
    → IsObject full_waveforms p
    → Carries full_waveforms p (payload full_waveforms p) (restored full_waveforms p)
unfolding latest_version payload restored
full_waveforms-Carries p o =
    let m = drop full_at p in
    let fs = take full_at p in
    let bs = blocks_of nchan m in
    let front : length (take full_at p) ≡ full_at =
      length-take_within full_at p (omega (arith, full_room, o.object_size)) in
    let v =
      blocks_of-AreBlocks nchan m
        (omega (arith, full_room, o.object_size, length-drop full_at p)) in
    let count : length (blocks_of nchan m) ≡ nchan = length-blocks_of nchan m in
    let whole : take full_at p ++ (memory (blocks_of nchan m) ++ drop (nchan * 2052) m) ≡ p =
      ap (λ t. take full_at p ++ (t ++ drop (nchan * 2052) m)) (memory-blocks_of nchan m)
      ∙ (ap (λ t. take full_at p ++ t) (take-append-drop (nchan * 2052) m)
          ∙ take-append-drop full_at p) in
    record {
      writes =
          subst (λ t. Writes full_waveforms t (fs ++ waves bs)) whole
            (full-Writes fs bs front v count (drop (nchan * 2052) m));
      reads = full-Reads fs bs front v count;
      writes_again = full-Writes_again fs bs front v count;
    }
