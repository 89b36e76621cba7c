-- ===== src/Formats.antt =====
-- The in-memory structs of inc/pueo/rawdata.h as layouts: their names, widths and order.
pub mod Base
pub mod Event
pub mod Sensor
pub mod Nav
pub mod Command
pub mod Slow
pub mod Daq
pub mod Old
