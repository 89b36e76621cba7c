-- ===== src/Datatype/Codes.antt =====
-- The type codes identify the packet types.
use libpueorawdata.Prelude.{ℕ, ◌≡◌, refl, ◌↔◌, ◌<◌, some, List, [], ◌∷◌, arith, ap, ◌∙◌}
use libpueorawdata.Datatype.{Kind, full_waveforms, code, find_row, of_code, dispatch_table}

-- A row that a switch takes has the code.
code-find_row : (c : ℕ) (ks : List Kind) (k : Kind) → find_row c ks ≡ some k → c ≡ code k
unfolding find_row
code-find_row c [] k h = ground arith
code-find_row c (j ∷ ks) k h = ground (arith, code-find_row c ks k)

of_code-code : (k : Kind) → of_code (code k) ≡ some k
unfolding of_code code
of_code-code full_waveforms = refl
of_code-code _ = refl

code-of_code : (c : ℕ) (k : Kind) → of_code c ≡ some k → c ≡ code k
code-of_code c k h = code-find_row c dispatch_table k (unfold of_code in h)

-- The switches over PUEO_IO_DISPATCH_TABLE take a row for a type code exactly when it is that
-- row's code.
pub of_code_iff : (c : ℕ) (k : Kind) → (of_code c ≡ some k) ↔ (c ≡ code k)
of_code_iff c k = (code-of_code c k, λ e. ap of_code e ∙ of_code-code k)

pub code-lt : (k : Kind) → code k < 65536
unfolding code
code-lt full_waveforms = omega arith
code-lt _ = omega arith
