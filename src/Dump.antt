-- ===== src/Dump.antt =====
-- src/rawio_dump.c: packets printed as text.
pub mod Print
pub mod Event
pub mod Readings
pub mod Position
pub mod Status
pub mod Daq
pub mod Packet
pub mod Nesting
pub mod Closed
pub mod Written
pub mod Ends
pub mod Returns
