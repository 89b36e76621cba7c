-- ===== src/Versions/Bounds.antt =====
-- The size tables are complete, and no version is larger than the current struct.
use libpueorawdata.Prelude.{
  ℕ, zero, suc, ◌+◌, ◌≤◌, ◌<◌, ◌≡◌, refl, Bool, true, ◌&&◌, leb, List, [], ◌∷◌, length, get_or,
  arith, le→ltb, lt→ltb, ltb→lt, ltb-false→le, sym, ◌∙◌, Bool-cases, inl, inr, ltb,
}
use libpueorawdata.Prelude.Int.{pos, negsuc, pos_injective, pos-ne-negsuc}
use libpueorawdata.Datatype.{Kind, full_waveforms, latest_version, size_of}
use libpueorawdata.Versions.{size_table, packet_size}

-- The `static_assert` of X_SIZE_IMPL: one entry for each version.
pub length-size_table : (k : Kind) → length (size_table k) ≡ latest_version k + 1
unfolding size_table latest_version
length-size_table full_waveforms = refl
length-size_table _ = refl

all_within : List ℕ → ℕ → Bool
all_within [] n = true
all_within (x ∷ xs) n = leb 1 x && leb x n && all_within xs n

size_table_within : (k : Kind) → all_within (size_table k) (size_of k) ≡ true
unfolding all_within size_table size_of
size_table_within full_waveforms = refl
size_table_within _ = refl

get_or_within :
    (xs : List ℕ) (n i : ℕ)
    → all_within xs n ≡ true
    → i < length xs
    → (1 ≤ get_or xs i 0) × (get_or xs i 0 ≤ n)
unfolding all_within
get_or_within [] n i h lt = absurd (omega arith)
get_or_within (x ∷ xs) n zero h lt = ground arith
get_or_within (x ∷ xs) n (suc i) h lt = ground (arith, get_or_within xs n i)

packet_size_known :
    (k : Kind) (ver : ℕ)
    → ver ≤ latest_version k
    → packet_size k ver ≡ pos (get_or (size_table k) ver 0)
unfolding packet_size
packet_size_known k ver h = rw (le→ltb (latest_version k) ver h)

pub packet_size_unknown :
    (k : Kind) (ver : ℕ) → latest_version k < ver → packet_size k ver ≡ negsuc 0
unfolding packet_size
packet_size_unknown k ver h = rw (lt→ltb (latest_version k) ver h)

pub packet_size-latest : (k : Kind) → packet_size k (latest_version k) ≡ pos (size_of k)
unfolding packet_size size_of
packet_size-latest full_waveforms = refl
packet_size-latest _ = refl

-- For every version up to PUEO_X_VER, pueo_X_size returns a positive number that is no larger than
-- the current struct.
pub packet_size_bounds :
    (k : Kind) (ver : ℕ)
    → ver ≤ latest_version k
    → (n : ℕ) × (packet_size k ver ≡ pos n) × (1 ≤ n) × (n ≤ size_of k)
packet_size_bounds k ver h =
    let within : (1 ≤ get_or (size_table k) ver 0) × (get_or (size_table k) ver 0 ≤ size_of k) =
      get_or_within (size_table k) (size_of k) ver (size_table_within k)
        (omega (arith, length-size_table k)) in
    (get_or (size_table k) ver 0, packet_size_known k ver h, within.0, within.1)

-- Only known versions have a size, and it is no larger than the struct's.
pub packet_size_within :
    (k : Kind) (ver n : ℕ) → packet_size k ver ≡ pos n → (ver ≤ latest_version k) × (n ≤ size_of k)
packet_size_within k ver n e = elim (Bool-cases (ltb (latest_version k) ver)) [
  | inl unknown ↦ absurd (
      pos-ne-negsuc n 0 (sym e ∙ packet_size_unknown k ver (ltb→lt (latest_version k) ver unknown)))
  | inr known ↦
      let within = ltb-false→le (latest_version k) ver known in
      let b = packet_size_bounds k ver within in
      (within, omega (arith, pos_injective b.0 n (sym b.1 ∙ e), b.3))
]
