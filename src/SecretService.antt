-- ===== src/SecretService.antt =====
-- internal/service/secret_service.go: the methods of `SecretService`.
mod Defs
mod Import
pub mod Valid
pub mod Serve
pub mod Enabled
pub mod EnabledAll
pub mod Expired
unfoldable pub use Defs.{
  add, remove, rotate, toggle, set_limits, update_notes, rename, extend, disable_expired, set_tags,
  archive, unarchive, clone, bulk_extend, bulk_rotate, bulk_toggle, bulk_set_limits,
}
unfoldable pub use Import.{import_secrets}
pub use Import.{ImportResult}
