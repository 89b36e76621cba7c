-- ===== src/Geometry/Slots.antt =====
-- The crate positions that the macros of inc/pueo/pueo.h compute: four links of seven slots.
use libpueorawdata.Prelude.{ℕ, ◌<◌, ◌≡◌, ◌≢◌, arith}
use libpueorawdata.Geometry.{nrealsurf, nmisurf, imisurf_link, imisurf_slot}
use libpueorawdata.Geometry.{irealsurf_link, irealsurf_slot}

-- Two different populated SURFs differ in their link or their slot.
pub irealsurf_positions :
    (i j : ℕ)
    → i < nrealsurf
    → j < nrealsurf
    → i ≢ j
    → ¬ ((irealsurf_link i ≡ irealsurf_link j) × (irealsurf_slot i ≡ irealsurf_slot j))
unfolding irealsurf_link irealsurf_slot
irealsurf_positions i j hi hj other same = ground arith

-- Two different main-instrument SURFs differ in their link or their slot.
pub imisurf_positions :
    (i j : ℕ)
    → i < nmisurf
    → j < nmisurf
    → i ≢ j
    → ¬ ((imisurf_link i ≡ imisurf_link j) × (imisurf_slot i ≡ imisurf_slot j))
unfolding imisurf_link imisurf_slot
imisurf_positions i j hi hj other same = ground arith

-- Every populated SURF has one of four links and one of seven slots, and every main-instrument
-- SURF one of four links and one of the first six slots.
pub surf_ranges :
    (i j : ℕ)
    → i < nrealsurf
    → j < nmisurf
    → (irealsurf_link i < 4) × (irealsurf_slot i < 7) × (imisurf_link j < 4) × (imisurf_slot j < 6)
unfolding irealsurf_link irealsurf_slot imisurf_link imisurf_slot
surf_ranges i j hi hj = ground arith
