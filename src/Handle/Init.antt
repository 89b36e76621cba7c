-- ===== src/Handle/Init.antt =====
-- `pueo_handle_init` of src/rawio.c: which back end a URI asks for. A string is the list of its bytes up
-- to the terminating 0.
pub mod Uri
use libpueorawdata.Prelude.{
  ◌%◌, ◌^◌, min, ◌++◌, ℕ, zero, suc, ◌+◌, ◌-◌, ◌*◌, Bool, true, false, leb, ◌==◌, if◌then◌else◌,
  ◌&&◌, ◌||◌, Option, none, some, List, [], ◌∷◌, length, take,
}
use libpueorawdata.Prelude.Int.{ℤ, pos, negsuc}
use libpueorawdata.Prelude.Memory.{Bytes}
use libpueorawdata.Layout.Access.{to_signed}

-- `pueo_handle_init_file` by stdio or by zlib, and `pueo_handle_init_udp`.
pub data Backend : Type 0 where
  stdio gzip : Bytes → Backend
  udp : ℤ → Bytes → Backend

-- What follows a prefix.
unfoldable pub check_uri_prefix : Bytes → Bytes → Option Bytes
check_uri_prefix uri [] = some uri
check_uri_prefix [] (c ∷ cs) = none
check_uri_prefix (d ∷ ds) (c ∷ cs) = if d == c then check_uri_prefix ds cs else none

-- `strstr`: what stands before the first occurrence, and what follows it.
unfoldable pub strstr : Bytes → Bytes → Option (Bytes × Bytes)
unfolding check_uri_prefix
strstr [] needle = elim (check_uri_prefix [] needle) [ none ↦ none | some rest ↦ some ([], rest) ]
strstr (d ∷ ds) needle = elim (check_uri_prefix (d ∷ ds) needle) [
  | some rest ↦ some ([], rest)
  | none ↦ elim (strstr ds needle) [ none ↦ none | some found ↦ some (d ∷ found.0, found.1) ]
]

abbrev pub is_digit : ℕ → Bool
is_digit c = leb 48 c && leb c 57

abbrev pub is_space : ℕ → Bool
is_space c = c == 32 || (leb 9 c && leb c 13)

unfoldable pub digits_value : ℕ → Bytes → ℕ
digits_value n [] = n
digits_value n (c ∷ cs) =
    let rest = digits_value (n * 10 + (c - 48)) cs in if is_digit c then rest else n

abbrev pub negated : ℕ → ℤ
negated zero = pos 0
negated (suc n) = negsuc n

-- What strtol makes of a number, which it bounds by the largest and the smallest `long`, and the low 32
-- bits of that as an `int`.
abbrev pub int_of_long : ℤ → ℤ
int_of_long (pos n) = to_signed 32 (min n (2 ^ 63 - 1) % 2 ^ 32)
int_of_long (negsuc n) = to_signed 32 ((2 ^ 64 - min (n + 1) (2 ^ 63)) % 2 ^ 32)

-- The number at the start of a text; 0 when there is none.
unfoldable pub text_value : Bytes → ℤ
unfolding digits_value
text_value [] = pos 0
text_value (c ∷ cs) =
    let rest = text_value cs in
    if is_space c
    then rest
    else if c == 45
    then negated (digits_value 0 cs)
    else if c == 43
    then pos (digits_value 0 cs)
    else pos (digits_value 0 (c ∷ cs))

-- `atoi` of the GNU library; C leaves it undefined for a number that is no `int`.
unfoldable pub atoi : Bytes → ℤ
unfolding text_value
atoi s = int_of_long (text_value s)

-- `rindex(file, '.')`.
unfoldable pub last_suffix : Bytes → Option Bytes
last_suffix [] = none
last_suffix (c ∷ cs) = elim (last_suffix cs) [
  | some suffix ↦ some suffix
  | none ↦ if c == 46 then some (c ∷ cs) else none
]

abbrev pub same_bytes : Bytes → Bytes → Bool
same_bytes [] [] = true
same_bytes (a ∷ as') (b ∷ bs) = a == b && same_bytes as' bs
same_bytes _ _ = false

-- ".gz" and ".zst".
abbrev pub is_compressed : Bytes → Bool
is_compressed suffix =
    same_bytes suffix (46 ∷ 103 ∷ 122 ∷ []) || same_bytes suffix (46 ∷ 122 ∷ 115 ∷ 116 ∷ [])

unfoldable pub init_file : Bytes → Backend
unfolding last_suffix
init_file file = elim (last_suffix file) [
  | none ↦ stdio file
  | some suffix ↦ if is_compressed suffix then gzip file else stdio file
]

-- "file://" and "udp:".
abbrev pub file_prefix : Bytes
file_prefix = 102 ∷ 105 ∷ 108 ∷ 101 ∷ 58 ∷ 47 ∷ 47 ∷ []

abbrev pub udp_prefix : Bytes
udp_prefix = 117 ∷ 100 ∷ 112 ∷ 58 ∷ []

-- The host behind the slashes ends at the 0 that replaces the colon, if that is behind them.
unfoldable pub udp_host : Bytes × Bytes → Bytes × Bytes → Bytes
udp_host slashes colon =
    if leb (length slashes.0 + 2) (length colon.0)
    then take (length colon.0 - (length slashes.0 + 2)) slashes.1
    else slashes.1

-- Both are looked for in what follows "udp:", and both must be there.
unfoldable pub udp_parts : Option (Bytes × Bytes) → Option (Bytes × Bytes) → Option Backend
unfolding atoi udp_host
udp_parts none colon = none
udp_parts (some slashes) none = none
udp_parts (some slashes) (some colon) = some (udp (atoi colon.1) (udp_host slashes colon))

-- The branch for "udp:", with what follows the prefix.
unfoldable pub init_udp_uri : Bytes → Option Backend
unfolding strstr udp_parts
init_udp_uri remainder = udp_parts (strstr remainder (47 ∷ 47 ∷ [])) (strstr remainder (58 ∷ []))

-- None for the result -1.
unfoldable pub handle_init : Bytes → Option Backend
unfolding check_uri_prefix init_file init_udp_uri
handle_init uri = elim (check_uri_prefix uri file_prefix) [
  | some remainder ↦ some (init_file remainder)
  | none ↦ elim (check_uri_prefix uri udp_prefix) [
    | some remainder ↦ init_udp_uri remainder
    | none ↦ some (init_file uri)
  ]
]

-- The 0 that is written over the first colon behind "udp:", when slashes are there as well.
unfoldable pub cut_colon : Option (Bytes × Bytes) → Option (Bytes × Bytes) → Bytes → Bytes
cut_colon (some slashes) (some colon) remainder = colon.0 ++ 0 ∷ colon.1
cut_colon slashes colon remainder = remainder

-- The caller's text after `pueo_handle_init`, which has to be writable for a URI with "udp:".
unfoldable pub uri_after : Bytes → Bytes
unfolding check_uri_prefix strstr cut_colon
uri_after uri = elim (check_uri_prefix uri file_prefix) [
  | some remainder ↦ uri
  | none ↦ elim (check_uri_prefix uri udp_prefix) [
    | some remainder ↦
        udp_prefix
        ++ cut_colon (strstr remainder (47 ∷ 47 ∷ [])) (strstr remainder (58 ∷ [])) remainder
    | none ↦ uri
  ]
]
