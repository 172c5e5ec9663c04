-- ===== src/Settings.antt =====
-- internal/model/settings.go and internal/store/settings_store.go: the settings of the application.
mod Defs
mod Validate
pub mod Store
pub mod Range
pub mod Saved
pub use Defs.{Settings}
pub use Store.{or_zero}
unfoldable pub use Defs.{default_settings}
unfoldable pub use Validate.{valid_port, valid_enum, validate}
unfoldable pub use Store.{lookup, get, put, save, load}
