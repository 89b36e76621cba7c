-- ===== src/Formats/Old.antt =====
-- Structs of earlier packet versions, from src/rawio_versions.h.
pub mod Event
pub mod DaqHsk
pub mod DaqHskSummary
