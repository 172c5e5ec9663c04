-- ===== src/Config.antt =====
-- pkg/telemt/config.go: the configuration that the engine is started with.
pub mod Maps
pub mod Defs
pub mod Access
pub mod Parts
pub mod Build
pub mod Lines
pub mod Server
pub mod Render
pub mod Policy
pub mod Headers
pub mod Arrays
