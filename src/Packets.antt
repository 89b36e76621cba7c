-- ===== src/Packets.antt =====
-- src/rawio_packets.c: how each packet type is written, read and described by a header. The
-- functions of one name `pueo_…_X` are one function here, by the packet type.
pub mod Simple
pub mod Waveform
pub mod Counted
pub mod Dispatch
pub mod Codec
pub mod Object
