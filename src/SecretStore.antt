-- ===== src/SecretStore.antt =====
-- internal/store/secret_store.go: the methods of `SecretStore`.
pub mod Rows
mod Defs
pub mod Valid
pub mod Expiry
mod Bulk
unfoldable pub use Defs.{
  set_where, columns, unix, list, get_by_label, create, update, delete, count_enabled,
  count_enabled_by_labels, count, list_enabled_labels, rename_label, extend_expiry, update_tags,
  archive, unarchive,
}
unfoldable pub use Expiry.{
  parse_expiry, parse_int, expired_ids, find_expired_ids, disable_row, disable_ids, spare_last,
  disable_expired,
}
unfoldable pub use Bulk.{
  sum_over, bulk_extend_expiry, bulk_rotate_keys, bulk_toggle_enabled, bulk_set_limits, with_limits,
}
pub use Bulk.{Limits, if_set}
