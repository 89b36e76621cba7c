-- ===== src/Dump/Nesting.antt =====
-- The nesting of the braces and brackets that the macros of src/rawio_dump.c print.
use libpueorawdata.Prelude.{
  append-nil, append_assoc, Bool, true, false, if◌then◌else◌, ℕ, zero, suc, ◌+◌, le→leb, lt→leb,
  ◌≡◌, refl, ◌∙◌, ap, sym, Option, none, some, List, [], ◌∷◌, ◌++◌, inl, inr, arith,
}
use libpueorawdata.Prelude.Int.{sub_ℕ, ℤ, pos, negsuc, ◌+ℤ◌}
use libpueorawdata.Prelude.Run.{Run, Returns, >>=-Returns}
use libpueorawdata.Db.Statement.{for_each}
use libpueorawdata.Db.Log.Refines.{Option-cases}
use libpueorawdata.Dump.Print.{
  Print, Printed, start, start_array, start_object, end_object, end, end_array, key, array, console,
  Line, Output, next, on_console, print_macro, print_macros, for_each_run,
}

-- What is open: an object behind a key, an array, an object of an array.
pub data Bracket : Type 0 where
  object list element : Bracket

-- The brackets open after a macro, unless it closes another one than the innermost, or writes to the
-- standard output where that is not allowed.
unfoldable pub nest : Bool → List Bracket → Print → Option (List Bracket)
nest b s (start what) = some (object ∷ s)
nest b s (start_array what) = some (list ∷ s)
nest b s start_object = some (element ∷ s)
nest b (object ∷ s) end = some s
nest b (list ∷ s) end_array = some s
nest b (element ∷ s) end_object = some s
nest b s (key name v) = some s
nest b s (array name vs) = some s
nest b s (console v comma) = if b then some s else none
nest b s _ = none

abbrev pub nest_all : Bool → List Bracket → List Print → Option (List Bracket)
nest_all b s [] = some s
nest_all b s (p ∷ ps) = elim (nest b s p) [ none ↦ none | some t ↦ nest_all b t ps ]

-- Every bracket that is opened is closed, by its own kind and inside the one around it; only with
-- `true` is anything written to the standard output.
abbrev pub IsClosed : Bool → List Print → Type 0
IsClosed b ps = (s : List Bracket) → nest_all b s ps ≡ some s

abbrev then_all : Bool → Option (List Bracket) → List Print → Option (List Bracket)
then_all b none ps = none
then_all b (some s) ps = nest_all b s ps

nest_all-∷ :
    (b : Bool) (p : Print) (ps : List Print) (s : List Bracket)
    → nest_all b s (p ∷ ps) ≡ then_all b (nest b s p) ps
nest_all-∷ b p ps s = elim (Option-cases (nest b s p)) [
  | inl e ↦ rw (nest_all, e)
  | inr (t, e) ↦ rw (nest_all, e)
]

nest_all-++ :
    (b : Bool) (ps qs : List Print) (s : List Bracket)
    → nest_all b s (ps ++ qs) ≡ then_all b (nest_all b s ps) qs
nest_all-++ b [] qs s = refl
nest_all-++ b (p ∷ ps) qs s = elim (Option-cases (nest b s p)) [
  | inl e ↦ rw (nest_all, e)
  | inr (t, e) ↦ rw (nest_all, e) (nest_all-++ b ps qs t)
]

-- What is closed can be passed over.
pub pass_closed :
    (b : Bool) (ps qs : List Print) (s t : List Bracket)
    → (IsClosed b) ps
    → nest_all b s qs ≡ some t
    → nest_all b s (ps ++ qs) ≡ some t
pass_closed b ps qs s t closed rest =
    nest_all-++ b ps qs s ∙ ap (λ o. then_all b o qs) (closed s) ∙ rest

-- A macro that opens and closes nothing.
abbrev pub IsInline : Bool → Print → Type 0
IsInline b p = (s : List Bracket) → nest b s p ≡ some s

pub pass_inline :
    (b : Bool) (p : Print) (ps : List Print) (s t : List Bracket)
    → (IsInline b) p
    → nest_all b s ps ≡ some t
    → nest_all b s (p ∷ ps) ≡ some t
pass_inline b p ps s t h rest = nest_all-∷ b p ps s ∙ ap (λ o. then_all b o ps) (h s) ∙ rest

pub ++-IsClosed :
    (b : Bool) (ps qs : List Print) → (IsClosed b) ps → (IsClosed b) qs → (IsClosed b) (ps ++ qs)
++-IsClosed b ps qs p q s = pass_closed b ps qs s s p (q s)

pub for_each-IsClosed :
    (b : Bool) (n k : ℕ) (body : ℕ → List Print)
    → ((i : ℕ) → (IsClosed b) (body i))
    → (IsClosed b) (for_each n k body)
unfolding for_each
for_each-IsClosed b zero k body h = λ s. refl
for_each-IsClosed b (suc n) k body h =
    ++-IsClosed b (body k) (for_each n (k + 1) body) (h k) (for_each-IsClosed b n (k + 1) body h)

pub for_each_run-IsClosed :
    (b : Bool) (n k : ℕ) (body : ℕ → Run (List Print))
    → ((i : ℕ) → Returns (IsClosed b) (body i))
    → Returns (IsClosed b) (for_each_run n k body)
unfolding for_each_run
for_each_run-IsClosed b zero k body h = λ s. refl
for_each_run-IsClosed b (suc n) k body h =
    >>=-Returns (IsClosed b) (IsClosed b) (body k) _ (h k) (λ here closed.
      >>=-Returns (IsClosed b) (IsClosed b) (for_each_run n (k + 1) body) _
        (for_each_run-IsClosed b n (k + 1) body h)
        (λ rest closed_rest. ++-IsClosed b here rest closed closed_rest))

-- One tab more for each bracket that is open.
abbrev depth : ℤ → List Bracket → ℤ
depth z [] = z
depth z (b ∷ s) = depth z s +ℤ pos 1

down_up : (z : ℤ) → (z +ℤ pos 1) +ℤ negsuc 0 ≡ z
down_up (pos n) = rw (sub_ℕ, le→leb 1 (n + 1) (omega arith)) (ap (λ m. pos m) (omega arith))
down_up (negsuc zero) = refl
down_up (negsuc (suc n)) =
    rw (sub_ℕ, lt→leb (suc (suc n)) 1 (omega arith)) (ap (λ m. negsuc m) (omega arith))

abbrev depth_of : ℤ → Option (List Bracket) → ℤ
depth_of z none = z
depth_of z (some s) = depth z s

next-depth :
    (b : Bool) (p : Print) (z : ℤ) (s t : List Bracket)
    → nest b s p ≡ some t
    → next p (depth z s) ≡ depth z t
unfolding next nest
next-depth b (start what) z s t h = ap (depth_of z) h
next-depth b (start_array what) z s t h = ap (depth_of z) h
next-depth b start_object z s t h = ap (depth_of z) h
next-depth b (key name v) z s t h = ap (depth_of z) h
next-depth b (array name vs) z s t h = ap (depth_of z) h
next-depth true (console v comma) z s t h = ap (depth_of z) h
next-depth false (console v comma) z s t h = cc
next-depth b end z (object ∷ s) t h = down_up (depth z s) ∙ ap (depth_of z) h
next-depth b end_array z (list ∷ s) t h = down_up (depth z s) ∙ ap (depth_of z) h
next-depth b end_object z (element ∷ s) t h = down_up (depth z s) ∙ ap (depth_of z) h
next-depth b end z [] t h = cc
next-depth b end z (list ∷ s) t h = cc
next-depth b end z (element ∷ s) t h = cc
next-depth b end_array z [] t h = cc
next-depth b end_array z (object ∷ s) t h = cc
next-depth b end_array z (element ∷ s) t h = cc
next-depth b end_object z [] t h = cc
next-depth b end_object z (list ∷ s) t h = cc
next-depth b end_object z (object ∷ s) t h = cc

nested-depth :
    (b : Bool) (count : Line → ℤ) (ps : List Print) (o : Output) (z : ℤ) (s t : List Bracket)
    → nest_all b s ps ≡ some t
    → o.ntabs ≡ depth z s
    → (print_macros count ps o).ntabs ≡ depth z t
unfolding print_macros
nested-depth b count [] o z s t h e = e ∙ ap (depth_of z) h
nested-depth b count (p ∷ ps) o z s t h e = elim (Option-cases (nest b s p)) [
  | inl bad ↦ absurd (
      let e : none ≡ some t = sym (ap (λ o. then_all b o ps) bad) ∙ sym (nest_all-∷ b p ps s) ∙ h in
      cc)
  | inr (u, good) ↦
      nested-depth b count ps (print_macro count p o) z u t
        (sym (ap (λ o. then_all b o ps) good) ∙ sym (nest_all-∷ b p ps s) ∙ h)
        (ap (λ d. next p d) e ∙ next-depth b p z s u good)
]

-- The macros of a dump with closed brackets leave `dump_ntabs` as it was.
pub closed-ntabs :
    (b : Bool) (count : Line → ℤ) (ps : List Print) (o : Output)
    → (IsClosed b) ps
    → (print_macros count ps o).ntabs ≡ o.ntabs
closed-ntabs b count ps o closed = nested-depth b count ps o o.ntabs [] [] (closed []) refl

nest-quiet : (p : Print) (s t : List Bracket) → nest false s p ≡ some t → on_console p ≡ []
unfolding nest on_console
nest-quiet (start what) s t h = refl
nest-quiet (start_array what) s t h = refl
nest-quiet start_object s t h = refl
nest-quiet (key name v) s t h = refl
nest-quiet (array name vs) s t h = refl
nest-quiet (console v comma) s t h = cc
nest-quiet end s t h = refl
nest-quiet end_array s t h = refl
nest-quiet end_object s t h = refl

-- What is written to the standard output.
unfoldable pub spoken : List Print → List (Printed × Bool)
unfolding on_console
spoken [] = []
spoken (p ∷ ps) = on_console p ++ spoken ps

pub print_macros-terminal :
    (count : Line → ℤ) (ps : List Print) (o : Output)
    → (print_macros count ps o).terminal ≡ o.terminal ++ spoken ps
unfolding print_macros print_macro spoken
print_macros-terminal count [] o = sym (append-nil o.terminal)
print_macros-terminal count (p ∷ ps) o =
    print_macros-terminal count ps (print_macro count p o)
    ∙ append_assoc o.terminal (on_console p) (spoken ps)

quiet-spoken :
    (ps : List Print) (s t : List Bracket) → nest_all false s ps ≡ some t → spoken ps ≡ []
unfolding spoken
quiet-spoken [] s t h = refl
quiet-spoken (p ∷ ps) s t h = elim (Option-cases (nest false s p)) [
  | inl bad ↦ absurd (
      let e : none ≡ some t =
        sym (ap (λ u. then_all false u ps) bad) ∙ sym (nest_all-∷ false p ps s) ∙ h in
      cc)
  | inr (u, good) ↦
      ap (λ c. c ++ spoken ps) (nest-quiet p s u good)
      ∙ quiet-spoken ps u t
          (sym (ap (λ u. then_all false u ps) good) ∙ sym (nest_all-∷ false p ps s) ∙ h)
]

pub closed-spoken : (ps : List Print) → IsClosed false ps → spoken ps ≡ []
closed-spoken ps closed = quiet-spoken ps [] [] (closed [])
