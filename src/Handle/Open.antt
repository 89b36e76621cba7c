-- ===== src/Handle/Open.antt =====
-- Opening and closing handles: pueo_handle_init and the functions that it chooses from, and
-- pueo_handle_close, of src/rawio.c.
pub mod Usable
use libpueorawdata.Prelude.{
  ℕ, ◌+◌, Bool, true, false, ◌==◌, ◌||◌, if◌then◌else◌, Option, none, some, List, [], ◌∷◌, ◌++◌,
}
use libpueorawdata.Prelude.Int.{ℤ, pos, negsuc}
use libpueorawdata.Prelude.Memory.{Bytes}
use libpueorawdata.Handle.Init.{Backend, stdio, gzip, udp, handle_init}

-- The functions that the pointers of a handle are set to.
pub data Function : Type 0 where
  file_writebytes file_readbytes file_close : Function
  gz_writebytes gz_readbytes gz_close : Function
  fd_writebytes fd_readbytes fd_close : Function
  socket_writebytes socket_readbytes socket_done socket_close : Function

-- What `aux` stands for: a FILE, a gzFile, a file descriptor, a struct udp_aux.
pub data Aux : Type 0 where
  file_pointer gz_pointer : Aux
  descriptor : ℕ → Aux
  udp_aux : Aux

-- What the text of `description` is made of.
pub data Description : Type 0 where
  address gz_name name : Bytes → Description
  given : Bytes → Description
  fd_name : ℕ → Description
  udp_name : Bytes → Bytes → ℤ → Description

-- The members of `pueo_handle_t` that opening sets; none is a null pointer.
pub record Setup : Type 0 where
  pub aux : Option Aux
  pub write_bytes : Option Function
  pub read_bytes : Option Function
  pub close : Option Function
  pub done_write_packet : Option Function
  pub description : Option Description

-- `hinit`.
abbrev pub blank : Setup
blank = record {
  aux = none;
  write_bytes = none;
  read_bytes = none;
  close = none;
  done_write_packet = none;
  description = none;
}

-- Which calls outside the library succeed: fopen and gzopen of a name with a mode, socket,
-- getaddrinfo of a host, bind and connect.
pub record Files : Type 0 where
  pub fopen_ok : Bytes → Bytes → Bool
  pub gzopen_ok : Bytes → Bytes → Bool
  pub socket_ok : Bool
  pub resolves : Bytes → Bool
  pub bind_ok : Bool
  pub connect_ok : Bool

-- The printed address is kept as bytes; none is the null pointer.
unfoldable pub init_filep : Option Bytes → Bool → ℤ × Setup
init_filep none close = (negsuc 0, blank)
init_filep (some address_of) close = (
  pos 0,
  record blank {
    aux = some file_pointer;
    close = if close then some file_close else none;
    read_bytes = some file_readbytes;
    write_bytes = some file_writebytes;
    description = some (address address_of);
  },
)

-- `pueo_handle_init_file` with no suffix for zlib, and with one.
unfoldable pub init_stdio : Files → Bytes → Bytes → ℤ × Setup
init_stdio s file mode = elim (s.fopen_ok file mode) [
  | false ↦ (negsuc 0, blank)
  | true ↦ (
    pos 0,
    record blank {
      aux = some file_pointer;
      close = some file_close;
      read_bytes = some file_readbytes;
      write_bytes = some file_writebytes;
      description = some (name file);
    },
  )
]

unfoldable pub init_gzip : Files → Bytes → Bytes → ℤ × Setup
init_gzip s file mode = elim (s.gzopen_ok file mode) [
  | false ↦ (negsuc 0, blank)
  | true ↦ (
    pos 0,
    record blank {
      aux = some gz_pointer;
      close = some gz_close;
      read_bytes = some gz_readbytes;
      write_bytes = some gz_writebytes;
      description = some (gz_name file);
    },
  )
]

-- The descriptor is an `int`, and the description may be null.
unfoldable pub init_fd_with_desc : ℤ → Option Bytes → ℤ × Setup
init_fd_with_desc (negsuc n) desc = (negsuc 0, blank)
init_fd_with_desc (pos fd) desc = (
  pos 0,
  record blank {
    aux = some (descriptor fd);
    close = some fd_close;
    read_bytes = some fd_readbytes;
    write_bytes = some fd_writebytes;
    description = elim desc [ none ↦ some (fd_name fd) | some d ↦ some (given d) ];
  },
)

unfoldable pub init_fd : ℤ → ℤ × Setup
unfolding init_fd_with_desc
init_fd fd = init_fd_with_desc fd none

-- `!!strchr(mode, c)`.
abbrev pub has_char : ℕ → Bytes → Bool
has_char c [] = false
has_char c (d ∷ ds) = d == c || has_char c ds

-- The socket once its mode is known to be for reading or for writing.
unfoldable pub init_socket : Files → Bool → ℤ → Bytes → Bytes → ℤ × Setup
init_socket s am_reading port hostname mode = elim s.socket_ok [
  | false ↦ (negsuc 0, blank)
  | true ↦ elim (s.resolves hostname) [
    | false ↦ (negsuc 0, blank)
    | true ↦ elim (if am_reading then s.bind_ok else s.connect_ok) [
      | false ↦ (negsuc 0, blank)
      | true ↦ (
        pos 0,
        record blank {
          aux = some udp_aux;
          description = some (udp_name mode hostname port);
          close = some socket_close;
          write_bytes = if am_reading then none else some socket_writebytes;
          read_bytes = if am_reading then some socket_readbytes else none;
          done_write_packet = if am_reading then none else some socket_done;
        },
      )
    ]
  ]
]

-- By whether `r`, 114, and `w`, 119, are in the mode: one of them has to be.
unfoldable pub init_udp_mode : Bool → Bool → Files → ℤ → Bytes → Bytes → ℤ × Setup
unfolding init_socket
init_udp_mode true false s port hostname mode = init_socket s true port hostname mode
init_udp_mode false true s port hostname mode = init_socket s false port hostname mode
init_udp_mode _ _ s port hostname mode = (negsuc 0, blank)

unfoldable pub init_udp : Files → ℤ → Bytes → Bytes → ℤ × Setup
unfolding init_udp_mode
init_udp s port hostname mode =
    init_udp_mode (has_char 114 mode) (has_char 119 mode) s port hostname mode

unfoldable pub init_backend : Backend → Files → Bytes → ℤ × Setup
unfolding init_stdio init_gzip init_udp
init_backend (stdio file) s mode = init_stdio s file mode
init_backend (gzip file) s mode = init_gzip s file mode
init_backend (udp port host) s mode = init_udp s port host mode

-- `pueo_handle_init` on a handle that holds anything: a URI that starts with udp: and has no slashes or
-- no colon leaves it as it is.
unfoldable pub init_handle : Files → Bytes → Bytes → Setup → ℤ × Setup
unfolding handle_init init_backend
init_handle s uri mode h = elim (handle_init uri) [
  | none ↦ (negsuc 0, h)
  | some backend ↦ init_backend backend s mode
]

-- `pueo_handle_close`: its result, the handle, and the function that was called.
unfoldable pub handle_close : Setup → ℤ × Setup × Option Function
handle_close h = (pos 0, blank, h.close)
