-- ===== src/Sys.antt =====
-- The environment of the stores and services (database/sql, crypto/rand, the clock, the calendar),
-- and the monad of their methods: a method reads and writes the tables and may return an error.
pub mod Keeps
pub mod Ensures
pub mod Both
pub mod Quiet
mod Defs
pub use Defs.{
  Error, db_error, constraint, no_rows, invalid_label, too_many_secrets, already_exists, not_found,
  random_failed, bad_key, last_enabled, over_limit, bad_days, invalid_upstream, middle_proxy_on,
  instance_disabled, not_written, unknown_task, bad_cron, Result, ok, err, TestResult, Probe,
  tested, untested, Env, Sys, M, pure, raise, continue, ◌>>=◌, ◌>>◌, guard, tick,
}
unfoldable pub use Defs.{
  query, exec, now, transaction, attempt, random_bytes, calendar, test_upstream,
}
