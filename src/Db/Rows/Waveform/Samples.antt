-- ===== src/Db/Rows/Waveform/Samples.antt =====
-- The loop over the samples in pueo_db_insert_single_waveform of src/rawio_db.c.
use libpueorawdata.Prelude.{
  ℕ, zero, suc, ◌+◌, ◌<◌, ◌≡◌, refl, subst, true, false, ltb, Bool-cases, ltb→lt, ltb-false→le, inl,
  inr, arith, [], ◌∷◌,
}
use libpueorawdata.Prelude.Int.{ℤ}
use libpueorawdata.Layout.Access.{member, at, to_signed, peek, locate}
use libpueorawdata.Layout.Access.Bounds.{peek-lt}
use libpueorawdata.Prelude.Memory.{Bytes}
use libpueorawdata.Datatype.{struct_of, single_waveform}
use libpueorawdata.Db.Rows.Members.{Members}
use libpueorawdata.Db.Rows.Waveform.{
  Stats, less, add_sample, run_stats, no_samples, samples, sample, stats,
}

less_irrefl : (a : ℤ) → less a a ≡ false
unfolding less
less_irrefl a = ground arith

-- From a ≤ h < v.
less_trans : (a h v : ℤ) → less h a ≡ false → less h v ≡ true → less v a ≡ false
unfolding less
less_trans a h v p q = ground arith

-- From v < l ≤ a.
less_back : (a l v : ℤ) → less a l ≡ false → less v l ≡ true → less a v ≡ false
unfolding less
less_back a l v p q = ground arith

-- The range of the first n values: bounds that are values.
pub record IsRange (d : ℕ → ℤ) (n : ℕ) (s : Stats) : Type 0 where
  pub upper : (k : ℕ) → k < n → less s.highest (d k) ≡ false
  pub lower : (k : ℕ) → k < n → less (d k) s.lowest ≡ false
  pub highest_at : (i : ℕ) × (i < n) × (s.highest ≡ d i)
  pub lowest_at : (i : ℕ) × (i < n) × (s.lowest ≡ d i)

-- A statement about the values before j, and the one at j.
up_to : (P : ℕ → Type 0) (j : ℕ) → ((k : ℕ) → k < j → P k) → P j → (k : ℕ) → k < j + 1 → P k
up_to P j before here k h = elim (Bool-cases (ltb k j)) [
  | inl earlier ↦ before k (ltb→lt k j earlier)
  | inr not ↦ let same : j ≡ k = omega (arith, ltb-false→le k j not) in subst P same here
]

add_sample-IsRange :
    (d : ℕ → ℤ) (j : ℕ) (s : Stats) → IsRange d j s → IsRange d (j + 1) (add_sample s (d j))
unfolding add_sample
add_sample-IsRange d j s r = record {
  upper = elim (Bool-cases (less s.highest (d j))) [
    | inl more ↦ rw more (
        up_to (λ k. less (d j) (d k) ≡ false) j
          (λ k h. less_trans (d k) s.highest (d j) (r.upper k h) more) (less_irrefl (d j)))
    | inr not ↦ rw not (up_to (λ k. less s.highest (d k) ≡ false) j r.upper not)
  ];
  lower = elim (Bool-cases (less (d j) s.lowest)) [
    | inl more ↦ rw more (
        up_to (λ k. less (d k) (d j) ≡ false) j
          (λ k h. less_back (d k) s.lowest (d j) (r.lower k h) more) (less_irrefl (d j)))
    | inr not ↦ rw not (up_to (λ k. less (d k) s.lowest ≡ false) j r.lower not)
  ];
  highest_at = elim (Bool-cases (less s.highest (d j))) [
    | inl more ↦ rw more (j, omega arith, refl)
    | inr not ↦ let (i, h, e) = r.highest_at in rw not (i, omega arith, e)
  ];
  lowest_at = elim (Bool-cases (less (d j) s.lowest)) [
    | inl more ↦ rw more (j, omega arith, refl)
    | inr not ↦ let (i, h, e) = r.lowest_at in rw not (i, omega arith, e)
  ];
}

run_stats-IsRange :
    (d : ℕ → ℤ) (total n j : ℕ) (s : Stats)
    → n + j ≡ total
    → IsRange d j s
    → IsRange d total (run_stats d n j s)
unfolding run_stats
run_stats-IsRange d total zero j s size r = subst (λ k. IsRange d k s) (omega arith) r
run_stats-IsRange d total (suc n) j s size r =
    run_stats-IsRange d total n (j + 1) (add_sample s (d j)) (omega arith)
      (add_sample-IsRange d j s r)

-- 16 bits in two's complement are between the values that the variables start with.
sample_starts :
    (n : ℕ)
    → n < 65536
    → (less no_samples.highest (to_signed 16 n) ≡ true)
      × (less (to_signed 16 n) no_samples.lowest ≡ true)
unfolding less
sample_starts n h = ground arith

first_sample :
    (d : ℕ → ℤ)
    → less no_samples.highest (d 0) ≡ true
    → less (d 0) no_samples.lowest ≡ true
    → IsRange d 1 (add_sample no_samples (d 0))
unfolding add_sample
first_sample d up down =
    rw (up, down)
      (record {
        upper =
            up_to (λ k. less (d 0) (d k) ≡ false) 0 (λ k h. absurd (omega arith))
              (less_irrefl (d 0));
        lower =
            up_to (λ k. less (d k) (d 0) ≡ false) 0 (λ k h. absurd (omega arith))
              (less_irrefl (d 0));
        highest_at = (0, omega arith, refl);
        lowest_at = (0, omega arith, refl);
      })

IsRange-of_stats :
    (wf : Members)
    → wf (member "wf" ∷ member "data" ∷ at 0 ∷ []) < 65536
    → IsRange (sample wf) samples (stats wf)
unfolding stats run_stats
IsRange-of_stats wf h =
    let (up, down) = sample_starts (wf (member "wf" ∷ member "data" ∷ at 0 ∷ [])) h in
    run_stats-IsRange (sample wf) samples 1023 1 (add_sample no_samples (sample wf 0)) (omega arith)
      (first_sample (sample wf) up down)

-- For the payload of any single-waveform packet, the max and the min that are inserted are the
-- largest and the smallest of the 1024 samples of its array.
pub stats-IsRange :
    (payload : Bytes)
    → IsRange
        (sample (peek (struct_of single_waveform) payload))
        samples
        (stats (peek (struct_of single_waveform) payload))
unfolding struct_of locate
stats-IsRange payload = IsRange-of_stats (peek (struct_of single_waveform) payload) (
    peek-lt (struct_of single_waveform) payload (member "wf" ∷ member "data" ∷ at 0 ∷ []) 432 16
      refl)
