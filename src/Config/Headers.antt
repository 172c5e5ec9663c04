-- ===== src/Config/Headers.antt =====
-- The table headers of a rendered configuration, read back from its text.
pub mod Rules
pub mod Entries
pub mod Sections
pub mod Tables
pub mod Text
