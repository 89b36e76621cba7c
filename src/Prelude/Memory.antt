-- ===== src/Prelude/Memory.antt =====
-- The bytes of a C object, and `memcpy` and `memset` on them. Members are little-endian.
pub mod Pieces
use libpueorawdata.Prelude.Tests.{leb, if◌then◌else◌}
use libpueorawdata.Prelude.Lists.{length, get_or, take, drop, replicate}
use libpueorawdata.Prelude.Run.{Run, done, fault, out_of_bounds}
use Prim.Native.Nat.{ℕ, ◌+◌, ◌*◌}
use mathlib.Core.List.{List, ◌++◌}

abbrev pub Bytes : Type 0
Bytes = List ℕ

abbrev pub u8_at : Bytes → ℕ → ℕ
u8_at m off = get_or m off 0

abbrev pub u16_at : Bytes → ℕ → ℕ
u16_at m off = u8_at m off + 256 * u8_at m (off + 1)

abbrev pub zeros : ℕ → Bytes
zeros n = replicate n 0

-- `n` bytes from offset `off` on.
unfoldable pub load : ℕ → ℕ → Bytes → Run Bytes
load off n m = if leb (off + n) (length m) then done (take n (drop off m)) else fault out_of_bounds

-- `bs` over what stands at offset `off`.
unfoldable pub store : ℕ → Bytes → Bytes → Run Bytes
store off bs m =
    if leb (off + length bs) (length m)
    then done (take off m ++ (bs ++ drop (off + length bs) m))
    else fault out_of_bounds

-- `memset(m + off, 0, n)`.
unfoldable pub clear : ℕ → ℕ → Bytes → Run Bytes
unfolding store
clear off n m = store off (zeros n) m
