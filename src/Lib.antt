-- ===== src/Lib.antt =====
-- libpueorawdata: the raw data formats of PUEO, and the reading and writing of their packets.
--
-- A packet is a header of eight bytes and a payload. The payload is the struct of its type
-- (inc/pueo/rawdata.h), whole, or up to the bytes of its arrays that are in use. A stream of packets
-- is a handle (pueo_handle_t of inc/pueo/rawio.h): state, and function pointers that move bytes.
--
--   Prelude   shared helpers: Boolean tests, lists, C integers (Prelude/Int), outcomes of C calls
--             (Prelude/Run), bytes of memory (Prelude/Memory), exclusive or (Prelude/Bits)
--   Layout    sizes and offsets of C structs, bit-fields included, by the rules of the x86-64 ABI;
--             Layout/Evolution is about structs that extend others, Layout/Access reads members
--   Geometry  inc/pueo/pueo.h: the instrument's constants and SURF numberings
--   Formats   inc/pueo/rawdata.h: the structs, and in Formats/Old the earlier versions of
--             src/rawio_versions.h
--   Datatype  PUEO_IO_DISPATCH_TABLE: the packet types, their codes, structs and current versions
--   Versions  src/rawio_versions.c: the sizes of the versions, and the members they keep
--   Crc       src/pueocrc.c: the checksum
--   Handle    pueo_handle_t, its function pointers, the header (Handle/Header), the stdio back end
--             (Handle/File), the UDP back end (Handle/Socket), descriptors and zlib (Handle/Device),
--             the choice of a back end by URI (Handle/Init), and opening and closing (Handle/Open)
--   Packets   src/rawio_packets.c: pueo_packet_header_for_X, pueo_write_packet_X and
--             pueo_read_packet_X. Packets/Simple has SIMPLE_PUEO_IO_IMPL, Packets/Waveform the two
--             waveform packets, Packets/Counted those with a counted array. Packets/Codec is the
--             interface between them and the streams, and Packets/Object describes the payload of a
--             whole object and what is restored from it
--   Rawio     src/rawio.c: pueo_read_X and pueo_write_X (read_typed, write_typed), and in Rawio/Packet
--             pueo_ll_read, pueo_ll_read_realloc and pueo_packet_as_X. Rawio/Stream is about files of
--             many packets, Rawio/Datagram about packets over UDP, Rawio/Short about writes that come
--             short
--   Sensors   src/sensor_ids.c over the tables of inc/pueo/sensor_ids.h and
--             inc/pueo/sensor_ids_compat.h
--   Db        src/rawio_db.c, the database export. Db/State has the handle with begin_sql_stream and
--             commit_sql_stream, Db/Rows the columns and values of each pueo_db_insert_X, Db/Insert
--             those functions and pueo_db_insert_packet of src/rawio.c, Db/Tables the X_init
--             functions, Db/Open pueo_db_handle_open and init_db. Db/Log is the specification of the
--             handle as a log of scripts, and Db/Typing that of rows that fit their tables
--   Dump      src/rawio_dump.c, packets printed as text, and pueo_dump_packet of src/rawio.c
--             (Dump/Packet). Dump/Print has the macros and what they print; Dump/Nesting is about the
--             brackets, Dump/Written and Dump/Returns about the whole call
--   Prio      src/prio_interface.c over inc/pueo/prio_interface.h
--   Tests     the theorems applied at concrete inputs
--
-- The functions that a macro makes for each packet type are one function here, by the type (Kind). An
-- object is the list of its bytes; a member is read at its offset, least significant byte first. A C
-- call has the type Run: a result, or a fault (an assertion, a call through a null pointer, an access
-- outside an object, output to a null stream). Assertions are taken as compiled in; the default build
-- type of CMakeLists.txt leaves them out, where a failed one goes on with what follows (for unknown
-- magic numbers that is sensor_id_get_compat_ndebug). State that is changed is passed on: read_typed
-- returns the result, the object and the handle. The bit of a handle's flags is a Boolean, and
-- messages to stderr are a list of warnings. Numbers that a C type bounds are wrapped where the source
-- may wrap them: the 64-bit counters, the 32-bit length of a header, the 20 bits of num_bytes and the
-- 4 bits of version.
--
-- The loops over channels run nchan times by recursion on that number, and the loop over a file of
-- packets takes the number of calls allowed, which a result shows to be enough when it is larger than
-- the number of packets. A file reads short at its end and writes short when its room is used up.
--
-- In the database export a script is a list of statements, and a statement its table, columns and
-- values: spaces, commas and line ends are not kept. Statements fit their tables when they name what
-- is NOT NULL and their values are of the types of the columns (Db/Typing) and values of SQL
-- (Db/Typing/Plain). A double is the expression that the code evaluates, of the packet's bits. The
-- databases, the clock, the calendar and the calls that open and close streams are parameters: records
-- of their results (System, Opening, Closing in Db/Open and Db/State). So are the loader of shared
-- objects (Loader in Prio), the calls that open handles (Files in Handle/Open), and reading and
-- writing of descriptors and by zlib (Device in Handle/Device).
--
-- A pueo_dump_X is the list of its macro calls, which are then printed one by one; a printed line
-- holds the value and its conversion, not the digits, and the number that fprintf returns for it is a
-- parameter. The nanoseconds, and the bit-fields of a daq_hsk_summary that have fewer bits than their
-- conversion, are given to fprintf as an int for a conversion of 64 bits: they are taken as printed
-- whole, as the registers of the x86-64 ABI hold them. The arguments of pueo_db_insert_nav_pos, which
-- are of other types than their conversions, are taken from the registers and the stack as that ABI
-- passes them.
--
-- Not modelled: pueo_write_packet_encoded_waveforms and its reader, which only return -1 and are in no
-- table, the digits that printing gives, the programs, addresses, failing allocations and messages but
-- those of pueo_read_X. A socket is the list of what recv will return, the list of datagrams that were
-- sent, and whether write fails.
--
-- The number behind a URI's colon is read as the GNU library's atoi does. pueo_handle_init writes into
-- the text of its URI, which is taken as writable (uri_after).
pub mod Prelude
pub mod Layout
pub mod Geometry
pub mod Formats
pub mod Datatype
pub mod Versions
pub mod Crc
pub mod Handle
pub mod Packets
pub mod Rawio
pub mod Sensors
pub mod Db
pub mod Dump
pub mod Prio
pub mod Tests
