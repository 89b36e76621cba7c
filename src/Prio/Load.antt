-- ===== src/Prio/Load.antt =====
-- What pueo_prio_create of src/prio_interface.c returns.
use libpueorawdata.Prelude.{◌≡◌, Bool, true, false, ◌&&◌, ◌⊎◌, Option, none, some, arith}
use libpueorawdata.Prelude.Int.{pos}
use libpueorawdata.Prelude.Memory.{Bytes}
use libpueorawdata.Prio.{
  Impl, Loader, pueo_prio_init, pueo_prio_configure, pueo_prio_compute, pueo_prio_destroy,
  set_method, load_methods, prio_create,
}

-- Every pointer is that of its symbol.
abbrev pub IsLoaded : {A : Type 0} → Loader A → Bytes → Impl A → Type 0
IsLoaded l path impl =
    (impl.init ≡ l.dlsym path pueo_prio_init)
    × (impl.configure ≡ l.dlsym path pueo_prio_configure)
    × (impl.compute ≡ l.dlsym path pueo_prio_compute)
    × (impl.destroy ≡ l.dlsym path pueo_prio_destroy)

abbrev is_there : {A : Type 0} → Option A → Bool
is_there none = false
is_there (some a) = true

-- Whether the object can be loaded and has all symbols.
abbrev pub complete : {A : Type 0} → Loader A → Bytes → Bool
complete l path =
    l.dlopen_ok path
    && (is_there (l.dlsym path pueo_prio_init)
        && (is_there (l.dlsym path pueo_prio_configure)
            && (is_there (l.dlsym path pueo_prio_compute)
                && is_there (l.dlsym path pueo_prio_destroy))))

-- pueo_prio_create returns 0 and sets the four pointers to the symbols when the object can be
-- loaded and has all of them; in every other case it returns 1, whatever is missing.
pub prio_create_lem :
    {A : Type 0} (l : Loader A) (path : Bytes) (impl : Impl A)
    → ((complete l path ≡ true)
        × ((prio_create l path impl).0 ≡ pos 0)
        × IsLoaded l path (prio_create l path impl).1)
      ⊎ ((complete l path ≡ false) × ((prio_create l path impl).0 ≡ pos 1))
unfolding prio_create load_methods set_method
prio_create_lem l path impl = ground arith
