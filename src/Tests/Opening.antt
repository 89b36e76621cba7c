-- ===== src/Tests/Opening.antt =====
-- The theorems on opening handles and on loading the prioritizer applied at concrete inputs.
use libpueorawdata.Prelude.{◌≡◌, refl, true, false, ◌⊎◌, Option, some, none, [], ◌∷◌}
use libpueorawdata.Prelude.Int.{pos}
use libpueorawdata.Prelude.Memory.{Bytes}
use libpueorawdata.Handle.Init.{handle_init}
use libpueorawdata.Handle.Open.{Files, blank, init_handle, handle_close, init_filep, file_close}
use libpueorawdata.Handle.Open.Usable.{Outcome, init_handle-Outcome}
use libpueorawdata.Prio.{Impl, Loader, Method, pueo_prio_destroy, prio_create}
use libpueorawdata.Prio.Load.{IsLoaded, complete, prio_create_lem}

abbrev files : Files
files = record {
  fopen_ok = λ file mode. true;
  gzopen_ok = λ file mode. false;
  socket_ok = true;
  resolves = λ host. true;
  bind_ok = true;
  connect_ok = true;
}

-- The file "a", for reading.
abbrev name_a : Bytes
name_a = 97 ∷ []

abbrev for_reading : Bytes
for_reading = 114 ∷ []

init_handle-Outcome_example :
    Outcome (handle_init name_a) blank (init_handle files name_a for_reading blank)
init_handle-Outcome_example = init_handle-Outcome files name_a for_reading blank

closes_file : handle_close (init_filep (some []) true).1 ≡ (pos 0, blank, some file_close)
unfolding handle_close init_filep
closes_file = refl

-- An object without the last method.
abbrev has_symbol : Method → Option Bytes
has_symbol pueo_prio_destroy = none
has_symbol m = some (1 ∷ [])

abbrev loader : Loader Bytes
loader = record { dlopen_ok = λ path. true; dlsym = λ path m. has_symbol m }

abbrev nothing_set : Impl Bytes
nothing_set = record { init = none; configure = none; compute = none; destroy = none }

prio_create_lem_example :
    ((complete loader name_a ≡ true)
      × ((prio_create loader name_a nothing_set).0 ≡ pos 0)
      × IsLoaded loader name_a (prio_create loader name_a nothing_set).1)
    ⊎ ((complete loader name_a ≡ false) × ((prio_create loader name_a nothing_set).0 ≡ pos 1))
prio_create_lem_example = prio_create_lem loader name_a nothing_set
