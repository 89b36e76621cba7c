-- ===== src/Db.antt =====
-- The database export of src/rawio_db.c.
pub mod Statement
pub mod State
pub mod Rows
pub mod Tables
pub mod Insert
pub mod Open
pub mod Log
pub mod Typing
pub mod Timestamp
