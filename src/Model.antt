-- ===== src/Model.antt =====
-- The records of internal/model and the database tables that hold them.
pub mod Secret
pub mod Upstream
pub mod Traffic
pub mod Tables
pub mod Instance
