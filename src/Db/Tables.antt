-- ===== src/Db/Tables.antt =====
-- The tables that src/rawio_db.c creates: the X_init functions and init_db.
mod Create
pub mod Names
unfoldable pub use Create.*
