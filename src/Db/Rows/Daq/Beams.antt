-- ===== src/Db/Rows/Daq/Beams.antt =====
-- The loop over the beams of a surf in pueo_db_insert_daq_hsk_summary of src/rawio_db.c.
use libpueorawdata.Prelude.{
  ℕ, zero, suc, ◌+◌, ◌<◌, ◌≤◌, ◌≡◌, ap, ltb, le→ltb, Bool-cases, ltb→lt, ltb-false→le, inl, inr,
  arith,
}
use libpueorawdata.Geometry.{nbeams}
use libpueorawdata.Db.Rows.Daq.{max_beam, max_index}

-- The first of the n largest.
pub record IsFirstMax (f : ℕ → ℕ) (n r : ℕ) : Type 0 where
  pub within : r < n
  pub largest : (k : ℕ) → k < n → f k ≤ f r
  pub first : (k : ℕ) → k < r → f k < f r

-- A bound on the values before j, and on the value at j.
up_to :
    (f : ℕ → ℕ) (j m : ℕ) → ((k : ℕ) → k < j → f k ≤ m) → f j ≤ m → (k : ℕ) → k < j + 1 → f k ≤ m
up_to f j m above here k h = elim (Bool-cases (ltb k j)) [
  | inl before ↦ above k (ltb→lt k j before)
  | inr not ↦ let same : k ≡ j = omega (arith, ltb-false→le k j not) in omega (arith, ap f same)
]

-- The loop from round j on, when r is the first of the largest so far, which is m, or both are 0.
max_beam-IsFirstMax :
    (f : ℕ → ℕ) (total n j m r : ℕ)
    → n + j ≡ total
    → m ≤ f r
    → r < total
    → ((k : ℕ) → k < j → f k ≤ m)
    → ((k : ℕ) → k < r → f k < m)
    → IsFirstMax f total (max_beam f n j m r)
unfolding max_beam
max_beam-IsFirstMax f total zero j m r size top within above first = record {
  within = within;
  largest = λ k h. omega (arith, above k (omega arith));
  first = λ k h. omega (arith, first k h);
}
max_beam-IsFirstMax f total (suc n) j m r size top within above first =
    elim (Bool-cases (ltb m (f j))) [
      | inl larger ↦
          let more = ltb→lt m (f j) larger in
          rw larger (
            max_beam-IsFirstMax f total n (j + 1) (f j) j (omega arith) (omega arith) (omega arith)
              (up_to f j (f j) (λ k h. omega (arith, above k h)) (omega arith))
              (λ k h. omega (arith, above k h)))
      | inr not ↦ rw not (
          max_beam-IsFirstMax f total n (j + 1) m r (omega arith) top within
            (up_to f j m above (ltb-false→le m (f j) not)) first)
    ]

-- Of the beams of a surf, the one whose rates the summary's row reports is the first with the
-- largest average threshold.
pub max_index-IsFirstMax : (f : ℕ → ℕ) → IsFirstMax f nbeams (max_index f)
unfolding max_index
max_index-IsFirstMax f =
    let found : IsFirstMax f nbeams (max_beam f nbeams 0 0 0) =
      max_beam-IsFirstMax f nbeams nbeams 0 0 0 (omega arith) (omega arith) (omega arith)
        (λ k h. absurd (omega arith)) (λ k h. absurd (omega arith)) in
    rw (le→ltb nbeams (max_beam f nbeams 0 0 0) (omega (arith, found.within))) found
