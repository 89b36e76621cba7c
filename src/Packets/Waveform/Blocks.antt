-- ===== src/Packets/Waveform/Blocks.antt =====
-- The array of a packet of all channels as a list of blocks, one for each channel: a waveform, and
-- the rest of its struct.
use libpueorawdata.Prelude.{
  suc, ◌-◌, ◌*◌, ◌≤◌, ◌≡◌, refl, ap, List, [], ◌∷◌, ◌++◌, length, drop, take, arith, length-append,
  length-drop, length-take,
}
use libpueorawdata.Prelude.Memory.{Bytes}
use libpueorawdata.Packets.Waveform.Pieces.{IsWaveform}

pub record Block : Type 0 where
  pub hd : Bytes
  pub ss : Bytes
  pub pad : Bytes

abbrev pub wave : Block → Bytes
wave b = b.hd ++ b.ss

pub record IsBlock (b : Block) : Type 0 where
  pub is_waveform : IsWaveform b.hd b.ss
  pub block_length : length (wave b ++ b.pad) ≡ 2052

abbrev pub AreBlocks : List Block → Type 0
AreBlocks [] = Unit {0}
AreBlocks (b ∷ bs) = IsBlock b × AreBlocks bs

-- The bytes of the blocks in the object, and what is written of them.
abbrev pub memory : List Block → Bytes
memory [] = []
memory (b ∷ bs) = (wave b ++ b.pad) ++ memory bs

abbrev pub waves : List Block → Bytes
waves [] = []
waves (b ∷ bs) = wave b ++ waves bs

-- The blocks after their waveforms were read over the bytes `q`.
abbrev pub padded : Block → Bytes → Block
padded b q = record b { pad = take (2052 - length (wave b)) (drop (length (wave b)) q) }

abbrev pub read_over : List Block → Bytes → List Block
read_over [] q = []
read_over (b ∷ bs) q = padded b q ∷ read_over bs (drop 2052 q)

pub length-memory : (bs : List Block) → AreBlocks bs → length (memory bs) ≡ length bs * 2052
length-memory [] v = omega arith
length-memory (b ∷ bs) v =
    omega
      (arith, length-append (wave b ++ b.pad) (memory bs), v.0.block_length, length-memory bs v.1)

pub wave-bound : (b : Block) → IsBlock b → length (wave b) ≤ 2052
wave-bound b v = omega (arith, length-append (wave b) b.pad, v.block_length)

pub waves-bound : (bs : List Block) → AreBlocks bs → length (waves bs) ≤ length bs * 2052
waves-bound [] v = omega arith
waves-bound (b ∷ bs) v =
    omega (arith, length-append (wave b) (waves bs), wave-bound b v.0, waves-bound bs v.1)

pub padded-IsBlock : (b : Block) (q : Bytes) → IsBlock b → 2052 ≤ length q → IsBlock (padded b q)
padded-IsBlock b q v h = record {
  is_waveform = v.is_waveform;
  block_length = omega (
    arith,
    length-append (wave b) (take (2052 - length (wave b)) (drop (length (wave b)) q)),
    length-take (2052 - length (wave b)) (drop (length (wave b)) q),
    length-drop (length (wave b)) q,
    wave-bound b v,
  );
}

pub read_over-AreBlocks :
    (bs : List Block) (q : Bytes)
    → AreBlocks bs
    → length bs * 2052 ≤ length q
    → AreBlocks (read_over bs q)
read_over-AreBlocks [] q v h = tt
read_over-AreBlocks (b ∷ bs) q v h = (
  padded-IsBlock b q v.0 (omega arith),
  read_over-AreBlocks bs (drop 2052 q) v.1 (omega (arith, length-drop 2052 q)),
)

pub length-read_over : (bs : List Block) (q : Bytes) → length (read_over bs q) ≡ length bs
length-read_over [] q = refl
length-read_over (b ∷ bs) q = ap suc (length-read_over bs (drop 2052 q))

pub waves-read_over : (bs : List Block) (q : Bytes) → waves (read_over bs q) ≡ waves bs
waves-read_over [] q = refl
waves-read_over (b ∷ bs) q = ap (λ t. wave b ++ t) (waves-read_over bs (drop 2052 q))
