-- ===== src/Format.antt =====
-- The verbs of package fmt that the configuration uses, %d, %v of a Boolean and %q, and FormatBytes
-- of pkg/fmtutil/bytes.go.
pub mod Decimal
pub mod Quote
pub mod Clean
pub mod Parse
pub mod Read
pub mod Bytes
pub mod Units
