-- ===== src/Tests/Uris.antt =====
-- The theorems on URIs applied at a host and a port.
use libpueorawdata.Prelude.{◌≡◌, refl, none, some, [], ◌∷◌, ◌++◌, arith}
use libpueorawdata.Prelude.Int.{pos}
use libpueorawdata.Prelude.Memory.{Bytes}
use libpueorawdata.Handle.Init.{
  udp, gzip, digits_value, atoi, init_file, udp_prefix, handle_init, uri_after,
}
use libpueorawdata.Handle.Init.Uri.{HasNoColon, handle_init-udp, handle_init-documented}

-- "hal" and "5010".
abbrev host : Bytes
host = 104 ∷ 97 ∷ 108 ∷ []

abbrev port : Bytes
port = 53 ∷ 48 ∷ 49 ∷ 48 ∷ []

host-HasNoColon : HasNoColon host
host-HasNoColon = (omega arith, (omega arith, (omega arith, tt)))

port-HasNoColon : HasNoColon port
port-HasNoColon = (omega arith, (omega arith, (omega arith, (omega arith, tt))))

port_value : digits_value 0 port ≡ 5010
unfolding digits_value
port_value = refl

-- "a.gz".
compressed : init_file (97 ∷ 46 ∷ 103 ∷ 122 ∷ []) ≡ gzip (97 ∷ 46 ∷ 103 ∷ 122 ∷ [])
unfolding init_file
compressed = refl

handle_init-udp_example :
    (handle_init (udp_prefix ++ (47 ∷ 47 ∷ (host ++ 58 ∷ port)))
      ≡ some (udp (pos (digits_value 0 port)) host))
    × (uri_after (udp_prefix ++ (47 ∷ 47 ∷ (host ++ 58 ∷ port)))
        ≡ udp_prefix ++ (47 ∷ 47 ∷ (host ++ 0 ∷ port)))
unfolding digits_value
handle_init-udp_example =
    handle_init-udp host port host-HasNoColon (refl, (refl, (refl, (refl, tt)))) (omega arith)

-- 2 ^ 32 + 80 is taken for the port 80.
large_port : atoi (52 ∷ 50 ∷ 57 ∷ 52 ∷ 57 ∷ 54 ∷ 55 ∷ 51 ∷ 55 ∷ 54 ∷ []) ≡ pos 80
unfolding atoi
large_port = refl

handle_init-documented_example : handle_init (udp_prefix ++ (port ++ 47 ∷ 47 ∷ host)) ≡ none
handle_init-documented_example = handle_init-documented port host port-HasNoColon host-HasNoColon
