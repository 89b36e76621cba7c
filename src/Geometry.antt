-- ===== src/Geometry.antt =====
-- inc/pueo/pueo.h: the instrument's constants, and the maps between SURF numberings.
pub mod Slots
use libpueorawdata.Prelude.{ℕ, ◌+◌, ◌*◌, ◌/◌, ◌%◌, ltb, if◌then◌else◌}

abbrev pub nqrh_ant : ℕ
nqrh_ant = 96

abbrev pub nlf_ant : ℕ
nlf_ant = 8

abbrev pub nsurf : ℕ
nsurf = 28

abbrev pub nchan_per_surf : ℕ
nchan_per_surf = 8

abbrev pub nrealsurf : ℕ
nrealsurf = 26

abbrev pub nmisurf : ℕ
nmisurf = 24

abbrev pub nchan : ℕ
nchan = nsurf * nchan_per_surf

abbrev pub nbeams : ℕ
nbeams = 48

abbrev pub max_buffer_length : ℕ
max_buffer_length = 1024

-- From the index of a populated SURF to that of the DAQ.
pub irealsurf_to_isurf : ℕ → ℕ
irealsurf_to_isurf i = if ltb i 20 then i else i + 1

-- From the index of a main-instrument SURF to that of the DAQ.
pub imisurf_to_isurf : ℕ → ℕ
imisurf_to_isurf i =
    if ltb i 6 then i else if ltb i 12 then i + 1 else if ltb i 18 then i + 2 else i + 3

pub surf_link : ℕ → ℕ
surf_link i = i / 7

pub surf_slot : ℕ → ℕ
surf_slot i = i % 7

pub irealsurf_link : ℕ → ℕ
unfolding irealsurf_to_isurf surf_link
irealsurf_link i = surf_link (irealsurf_to_isurf i)

pub irealsurf_slot : ℕ → ℕ
unfolding irealsurf_to_isurf surf_slot
irealsurf_slot i = surf_slot (irealsurf_to_isurf i)

pub imisurf_link : ℕ → ℕ
unfolding imisurf_to_isurf surf_link
imisurf_link i = surf_link (imisurf_to_isurf i)

pub imisurf_slot : ℕ → ℕ
unfolding imisurf_to_isurf surf_slot
imisurf_slot i = surf_slot (imisurf_to_isurf i)
