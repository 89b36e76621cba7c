-- ===== src/Handle/Open/Usable.antt =====
-- What the functions of a handle are after pueo_handle_init of src/rawio.c.
use libpueorawdata.Prelude.{◌≡◌, refl, Bool, true, false, ◌⊎◌, inl, inr, Option, none, some}
use libpueorawdata.Prelude.Int.{ℤ, pos, negsuc}
use libpueorawdata.Prelude.Memory.{Bytes}
use libpueorawdata.Handle.Init.{Backend, stdio, gzip, udp, handle_init}
use libpueorawdata.Handle.Open.{
  Setup, Files, blank, file_writebytes, file_readbytes, file_close, gz_writebytes, gz_readbytes,
  gz_close, socket_writebytes, socket_readbytes, socket_done, socket_close, has_char, init_stdio,
  init_gzip, init_socket, init_udp_mode, init_udp, init_backend, init_handle,
}

-- Functions of one back end: both ways for a file, one way for a socket, which sends a packet only
-- when it is told that the packet is done.
pub data IsUsable (h : Setup) : Type 0 where
  by_stdio :
      h.write_bytes ≡ some file_writebytes
      → h.read_bytes ≡ some file_readbytes
      → h.close ≡ some file_close
      → h.done_write_packet ≡ none
      → IsUsable h
  by_zlib :
      h.write_bytes ≡ some gz_writebytes
      → h.read_bytes ≡ some gz_readbytes
      → h.close ≡ some gz_close
      → h.done_write_packet ≡ none
      → IsUsable h
  sends :
      h.write_bytes ≡ some socket_writebytes
      → h.read_bytes ≡ none
      → h.close ≡ some socket_close
      → h.done_write_packet ≡ some socket_done
      → IsUsable h
  receives :
      h.write_bytes ≡ none
      → h.read_bytes ≡ some socket_readbytes
      → h.close ≡ some socket_close
      → h.done_write_packet ≡ none
      → IsUsable h

-- 0 with functions of one back end, or -1 with none.
abbrev pub IsOpened : ℤ × Setup → Type 0
IsOpened x = ((x.0 ≡ pos 0) × IsUsable x.1) ⊎ ((x.0 ≡ negsuc 0) × (x.1 ≡ blank))

-- A call that may fail.
attempt :
    {x : ℤ × Setup} (ok : Bool)
    → IsOpened x
    → IsOpened (elim ok [ false ↦ (negsuc 0, blank) | true ↦ x ])
attempt false h = inr (refl, refl)
attempt true h = h

module _ (s : Files) (mode : Bytes) where
  stdio-IsOpened : (file : Bytes) → IsOpened (init_stdio s file mode)
  unfolding init_stdio
  stdio-IsOpened file = attempt (s.fopen_ok file mode) (inl (refl, by_stdio refl refl refl refl))

  gzip-IsOpened : (file : Bytes) → IsOpened (init_gzip s file mode)
  unfolding init_gzip
  gzip-IsOpened file = attempt (s.gzopen_ok file mode) (inl (refl, by_zlib refl refl refl refl))

  socket-IsOpened :
      (am_reading : Bool) (port : ℤ) (host : Bytes)
      → IsOpened (init_socket s am_reading port host mode)
  unfolding init_socket
  socket-IsOpened true port host =
      attempt s.socket_ok
        (attempt (s.resolves host) (attempt s.bind_ok (inl (refl, receives refl refl refl refl))))
  socket-IsOpened false port host =
      attempt s.socket_ok
        (attempt (s.resolves host) (attempt s.connect_ok (inl (refl, sends refl refl refl refl))))

  udp-IsOpened :
      (r w : Bool) (port : ℤ) (host : Bytes) → IsOpened (init_udp_mode r w s port host mode)
  unfolding init_udp_mode
  udp-IsOpened true false port host = socket-IsOpened true port host
  udp-IsOpened false true port host = socket-IsOpened false port host
  udp-IsOpened true true port host = inr (refl, refl)
  udp-IsOpened false false port host = inr (refl, refl)

  backend-IsOpened : (backend : Backend) → IsOpened (init_backend backend s mode)
  unfolding init_backend init_udp
  backend-IsOpened (stdio file) = stdio-IsOpened file
  backend-IsOpened (gzip file) = gzip-IsOpened file
  backend-IsOpened (udp port host) = udp-IsOpened (has_char 114 mode) (has_char 119 mode) port host

-- What pueo_handle_init returns and leaves, by whether a back end is found for the URI.
abbrev pub Outcome : Option Backend → Setup → ℤ × Setup → Type 0
Outcome none h x = x ≡ (negsuc 0, h)
Outcome (some backend) h x = IsOpened x

-- pueo_handle_init returns 0 and sets the functions of one back end, which read and write a file,
-- or only send, or only receive on a socket; or it returns -1, and the handle has no functions,
-- but for a malformed udp: URI, where it is left as it was.
pub init_handle-Outcome :
    (s : Files) (uri mode : Bytes) (h : Setup)
    → Outcome (handle_init uri) h (init_handle s uri mode h)
unfolding init_handle
init_handle-Outcome s uri mode h = by_backend (handle_init uri)
  where
    by_backend :
        (found : Option Backend)
        → Outcome found h
            (elim found [ none ↦ (negsuc 0, h) | some backend ↦ init_backend backend s mode ])
    by_backend none = refl
    by_backend (some backend) = backend-IsOpened s mode backend
