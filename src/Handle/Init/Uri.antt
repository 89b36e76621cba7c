-- ===== src/Handle/Init/Uri.antt =====
-- The URIs that ask for a socket or a file.
use libpueorawdata.Prelude.{
  ℕ, ◌-◌, ◌<◌, ◌%◌, ◌^◌, ap, ◌∙◌, lt→ltb, min, ◌≡◌, ◌≢◌, refl, true, Option, none, some, [], ◌∷◌,
  ◌++◌, length, arith, le→leb, take-append_of_length, ◌≤◌, ==-of_ne,
}
use libpueorawdata.Prelude.Int.{pos}
use libpueorawdata.Prelude.Memory.{Bytes}
use libpueorawdata.Handle.Init.{
  udp, check_uri_prefix, strstr, is_digit, digits_value, int_of_long, text_value, atoi, cut_colon,
  uri_after, init_file, file_prefix, udp_prefix, udp_host, udp_parts, init_udp_uri, handle_init,
}

-- A string without a colon, and one of digits.
abbrev pub HasNoColon : Bytes → Type 0
HasNoColon [] = Unit {0}
HasNoColon (c ∷ cs) = (c ≢ 58) × HasNoColon cs

abbrev pub AreDigits : Bytes → Type 0
AreDigits [] = Unit {0}
AreDigits (c ∷ cs) = (is_digit c ≡ true) × AreDigits cs

no_match : (c : ℕ) (s : Bytes) → c ≢ 58 → check_uri_prefix (c ∷ s) (58 ∷ []) ≡ none
unfolding check_uri_prefix
no_match c s h = rw (==-of_ne c 58 h)

strstr-colon :
    (host rest : Bytes) → HasNoColon host → strstr (host ++ 58 ∷ rest) (58 ∷ []) ≡ some (host, rest)
unfolding strstr
strstr-colon [] rest h = refl
strstr-colon (c ∷ cs) rest h =
    rw (strstr, no_match c (cs ++ 58 ∷ rest) h.0, strstr-colon cs rest h.1)

strstr-no_colon : (s : Bytes) → HasNoColon s → strstr s (58 ∷ []) ≡ none
unfolding strstr
strstr-no_colon [] h = refl
strstr-no_colon (c ∷ cs) h = rw (strstr, no_match c cs h.0, strstr-no_colon cs h.1)

HasNoColon-append : (xs ys : Bytes) → HasNoColon xs → HasNoColon ys → HasNoColon (xs ++ ys)
HasNoColon-append [] ys h k = k
HasNoColon-append (x ∷ xs) ys h k = (h.0, HasNoColon-append xs ys h.1 k)

text_value-digits : (ds : Bytes) → AreDigits ds → text_value ds ≡ pos (digits_value 0 ds)
unfolding text_value
text_value-digits [] h = refl
text_value-digits (c ∷ cs) h = ground arith

int_of_long-small : (n : ℕ) → n < 2 ^ 31 → int_of_long (pos n) ≡ pos n
int_of_long-small n h =
    let e : min n (2 ^ 63 - 1) % 2 ^ 32 ≡ n = omega arith in rw (e, lt→ltb n (2 ^ 31) h)

atoi-digits :
    (ds : Bytes) → AreDigits ds → digits_value 0 ds < 2 ^ 31 → atoi ds ≡ pos (digits_value 0 ds)
unfolding atoi
atoi-digits ds d h =
    ap (λ z. int_of_long z) (text_value-digits ds d) ∙ int_of_long-small (digits_value 0 ds) h

udp_host-behind : (host ds : Bytes) → udp_host ([], host ++ 58 ∷ ds) (47 ∷ 47 ∷ host, ds) ≡ host
unfolding udp_host
udp_host-behind host ds =
    let behind : 2 ≤ length (47 ∷ 47 ∷ host) = omega arith in
    let size : length host ≡ length (47 ∷ 47 ∷ host) - 2 = omega arith in
    rw (
      le→leb 2 (length (47 ∷ 47 ∷ host)) behind,
      take-append_of_length (length (47 ∷ 47 ∷ host) - 2) host (58 ∷ ds) size,
    )

strstr-slashes : (s : Bytes) → strstr (47 ∷ 47 ∷ s) (47 ∷ 47 ∷ []) ≡ some ([], s)
unfolding strstr
strstr-slashes s = refl

udp_parts-none : (slashes : Option (Bytes × Bytes)) → udp_parts slashes none ≡ none
unfolding udp_parts
udp_parts-none none = refl
udp_parts-none (some s) = refl

-- A URI udp://host:port, with a host that has no colon and a port of digits below 2 ^ 31, asks
-- pueo_handle_init for a socket with that host and the port's value, and leaves the caller's text
-- with 0 in place of the colon.
pub handle_init-udp :
    (host ds : Bytes)
    → HasNoColon host
    → AreDigits ds
    → digits_value 0 ds < 2 ^ 31
    → (handle_init (udp_prefix ++ (47 ∷ 47 ∷ (host ++ 58 ∷ ds)))
        ≡ some (udp (pos (digits_value 0 ds)) host))
      × (uri_after (udp_prefix ++ (47 ∷ 47 ∷ (host ++ 58 ∷ ds)))
          ≡ udp_prefix ++ (47 ∷ 47 ∷ (host ++ 0 ∷ ds)))
unfolding handle_init init_udp_uri udp_parts uri_after cut_colon
handle_init-udp host ds h d small =
    let slashes_apart : HasNoColon (47 ∷ 47 ∷ host) = (omega arith, (omega arith, h)) in
    (
      rw (
        strstr-slashes (host ++ 58 ∷ ds),
        strstr-colon (47 ∷ 47 ∷ host) ds slashes_apart,
        atoi-digits ds d small,
        udp_host-behind host ds,
      ),
      rw (
        uri_after,
        strstr-slashes (host ++ 58 ∷ ds),
        strstr-colon (47 ∷ 47 ∷ host) ds slashes_apart,
      ),
    )

-- A URI of the documented form udp:port//host, with no colon in the port and the host, makes
-- pueo_handle_init fail.
pub handle_init-documented :
    (port host : Bytes)
    → HasNoColon port
    → HasNoColon host
    → handle_init (udp_prefix ++ (port ++ 47 ∷ 47 ∷ host)) ≡ none
unfolding handle_init init_udp_uri
handle_init-documented port host h k =
    let slashes_apart : HasNoColon (47 ∷ 47 ∷ host) = (omega arith, (omega arith, k)) in
    rw (
      strstr-no_colon (port ++ 47 ∷ 47 ∷ host)
          (HasNoColon-append port (47 ∷ 47 ∷ host) h slashes_apart),
      udp_parts-none (strstr (port ++ 47 ∷ 47 ∷ host) (47 ∷ 47 ∷ [])),
    )

pub handle_init-file : (file : Bytes) → handle_init (file_prefix ++ file) ≡ some (init_file file)
unfolding handle_init
handle_init-file file = refl
