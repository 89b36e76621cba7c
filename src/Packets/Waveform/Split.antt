-- ===== src/Packets/Waveform/Split.antt =====
-- An object taken apart at its waveforms: the block of a waveform is its `sizeof(pueo_waveform_t)`
-- bytes.
use libpueorawdata.Prelude.{
  ℕ, zero, suc, ◌+◌, ◌-◌, ◌*◌, ◌≤◌, ◌≡◌, refl, sym, ap, ◌∙◌, ltb, if◌then◌else◌, List, [], ◌∷◌,
  ◌++◌, length, take, drop, arith, length-take, length-drop, take-append-drop, take-add,
}
use libpueorawdata.Prelude.Memory.{Bytes, u16_at}
use libpueorawdata.Prelude.Memory.Pieces.{u16_at-append}
use libpueorawdata.Packets.Waveform.{checked_length}
use libpueorawdata.Packets.Waveform.Pieces.{IsWaveform}
use libpueorawdata.Packets.Waveform.Blocks.{Block, AreBlocks, wave, memory}

-- The bytes of the samples of the waveform at the start of `m`.
abbrev pub sample_bytes : Bytes → ℕ
sample_bytes m = checked_length m 0 * 2

abbrev pub block_of : Bytes → Block
block_of m = record {
  hd = take 4 m;
  ss = take (sample_bytes m) (drop 4 m);
  pad = take (2048 - sample_bytes m) (drop (4 + sample_bytes m) m);
}

abbrev pub blocks_of : ℕ → Bytes → List Block
blocks_of zero m = []
blocks_of (suc n) m = block_of m ∷ blocks_of n (drop 2052 m)

sample_bytes-bound : (m : Bytes) → sample_bytes m ≤ 2048
unfolding checked_length
sample_bytes-bound m = ground arith

-- The first four bytes say how many samples there are.
checked_length-take : (m : Bytes) → 4 ≤ length m → checked_length (take 4 m) 0 ≡ checked_length m 0
unfolding checked_length
checked_length-take m h =
    let member : u16_at (take 4 m) (0 + 2) ≡ u16_at m (0 + 2) =
      sym (u16_at-append 2 (take 4 m) (drop 4 m) (omega (arith, length-take 4 m)))
      ∙ ap (λ t. u16_at t 2) (take-append-drop 4 m) in
    ap (λ t. if ltb 1024 t then 1024 else t) member

pub block_of-IsWaveform : (m : Bytes) → 2052 ≤ length m → IsWaveform (block_of m).hd (block_of m).ss
block_of-IsWaveform m h = record {
  head_length = omega (arith, length-take 4 m);
  sample_length =
      ap (λ t. t * 2) (checked_length-take m (omega arith))
      ∙ omega
          (arith, length-take (sample_bytes m) (drop 4 m), length-drop 4 m, sample_bytes-bound m);
}

-- The waveform is the start of its block.
pub wave-block_of : (m : Bytes) → wave (block_of m) ≡ take (4 + sample_bytes m) m
wave-block_of m = take-add 4 (sample_bytes m) m

block_of-whole : (m : Bytes) → wave (block_of m) ++ (block_of m).pad ≡ take 2052 m
block_of-whole m =
    let total : 4 + sample_bytes m + (2048 - sample_bytes m) ≡ 2052 =
      omega (arith, sample_bytes-bound m) in
    ap (λ t. t ++ (block_of m).pad) (wave-block_of m)
    ∙ (take-add (4 + sample_bytes m) (2048 - sample_bytes m) m ∙ ap (λ n. take n m) total)

pub blocks_of-AreBlocks : (n : ℕ) (m : Bytes) → n * 2052 ≤ length m → AreBlocks (blocks_of n m)
blocks_of-AreBlocks zero m h = tt
blocks_of-AreBlocks (suc n) m h = (
  record {
    is_waveform = block_of-IsWaveform m (omega arith);
    block_length = ap length (block_of-whole m) ∙ omega (arith, length-take 2052 m);
  },
  blocks_of-AreBlocks n (drop 2052 m) (omega (arith, length-drop 2052 m)),
)

pub length-blocks_of : (n : ℕ) (m : Bytes) → length (blocks_of n m) ≡ n
length-blocks_of zero m = refl
length-blocks_of (suc n) m = ap suc (length-blocks_of n (drop 2052 m))

pub memory-blocks_of : (n : ℕ) (m : Bytes) → memory (blocks_of n m) ≡ take (n * 2052) m
memory-blocks_of zero m = refl
memory-blocks_of (suc n) m =
    let total : 2052 + n * 2052 ≡ suc n * 2052 = omega arith in
    ap (λ t. t ++ memory (blocks_of n (drop 2052 m))) (block_of-whole m)
    ∙ (ap (λ t. take 2052 m ++ t) (memory-blocks_of n (drop 2052 m))
        ∙ (take-add 2052 (n * 2052) m ∙ ap (λ k. take k m) total))
