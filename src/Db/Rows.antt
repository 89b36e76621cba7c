-- ===== src/Db/Rows.antt =====
-- The rows that src/rawio_db.c inserts, one for each packet type that it supports.
pub mod Members
pub mod Position
pub mod Housekeeping
pub mod Daq
pub mod Waveform
pub mod Telemetry
