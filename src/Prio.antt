-- ===== src/Prio.antt =====
-- The prioritizer's interface: inc/pueo/prio_interface.h and src/prio_interface.c. The loader of shared
-- objects is a parameter.
pub mod Load
use libpueorawdata.Prelude.{ℕ, Bool, true, false, Option, none, some, List, [], ◌∷◌}
use libpueorawdata.Prelude.Int.{ℤ, pos}
use libpueorawdata.Prelude.Memory.{Bytes}
use libpueorawdata.Layout.{Ty, array, end, field, int, struct}
use libpueorawdata.Formats.Event.{full_waveforms_t, priority_t}

-- A `double` is a scalar of 8 bytes, a `float` and an `int` of 4.
unfoldable pub prio_cfg_opt_t : Ty
prio_cfg_opt_t = struct (
    field "noiseThreshold" (int 8) (
      field "tdrsSignalThreshold" (int 8) (
        field "extraSignalThreshold" (int 8) (
          field "rmsThreshold" (int 8) (
            field "topBlastThreshold" (int 8) (
              field "bottomBlastThreshold" (int 8) (
                field "fullBlastThreshold" (int 8) (
                  field "frontBackThreshold" (int 8) (
                    field "aboveHorizontal" (int 8) (
                      field "scRiseTimeLowLim" (int 8) (
                        field "scRiseTimeUpLim" (int 8) (
                          field "filterCenters" (array 8 (int 8)) (
                            field "filterSpans" (array 8 (int 8))
                              (field "lowpass" (int 8) (field "highpass" (int 8) end)))))))))))))))

unfoldable pub prio_result_t : Ty
unfolding priority_t
prio_result_t = struct (
    field "blast_params" (array 3 (int 4)) (
      field "phi" (int 4) (
        field "theta" (int 4) (
          field "imp" (int 4) (
            field "map_peak" (int 4) (
              field "peak_coherent" (int 4) (
                field "pk2pk" (array 192 (int 4))
                  (field "rms" (array 192 (int 4)) (field "priority" priority_t end)))))))))

unfoldable pub prio_event_t : Ty
unfolding full_waveforms_t
prio_event_t = struct (field "trigL2" (int 4) (field "allwfms" full_waveforms_t end))

-- PUEO_PRIO_FUNCTIONS: the methods, in their order.
pub data Method : Type 0 where
  pueo_prio_init pueo_prio_configure pueo_prio_compute pueo_prio_destroy : Method

abbrev pub methods : List Method
methods = pueo_prio_init ∷ pueo_prio_configure ∷ pueo_prio_compute ∷ pueo_prio_destroy ∷ []

-- `pueo_prio_impl_t`: a pointer for each method, of type A; none is null.
pub record Impl (A : Type 0) : Type 0 where
  pub init : Option A
  pub configure : Option A
  pub compute : Option A
  pub destroy : Option A

unfoldable pub set_method : {A : Type 0} → Method → Option A → Impl A → Impl A
set_method pueo_prio_init p impl = record impl { init = p }
set_method pueo_prio_configure p impl = record impl { configure = p }
set_method pueo_prio_compute p impl = record impl { compute = p }
set_method pueo_prio_destroy p impl = record impl { destroy = p }

-- `dlopen` of a path, and `dlsym` of a name in it.
pub record Loader (A : Type 0) : Type 0 where
  pub dlopen_ok : Bytes → Bool
  pub dlsym : Bytes → Method → Option A

-- PUEO_PRIO_LOAD for each method: the pointer is set, and a null one ends the function with
-- `retval++`, which is 1.
unfoldable pub load_methods : {A : Type 0} → Loader A → Bytes → List Method → Impl A → ℤ × Impl A
unfolding set_method
load_methods l path [] impl = (pos 0, impl)
load_methods l path (m ∷ ms) impl = elim (l.dlsym path m) [
  | none ↦ (pos 1, set_method m none impl)
  | some f ↦ load_methods l path ms (set_method m (some f) impl)
]

unfoldable pub prio_create : {A : Type 0} → Loader A → Bytes → Impl A → ℤ × Impl A
unfolding load_methods
prio_create l path impl = elim (l.dlopen_ok path) [
  | false ↦ (pos 1, impl)
  | true ↦ load_methods l path methods impl
]
