-- ===== src/Traffic.antt =====
-- internal/store/traffic_store.go, internal/store/alert_store.go and
-- internal/service/traffic_service.go: traffic counters, quotas and the scheduled expiry check.
pub mod Store
pub mod Quota
pub mod Watch
pub mod Flush
pub mod Account
pub mod Counters
pub mod Exceeded
