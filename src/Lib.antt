-- ===== src/Lib.antt =====
-- Verification library of PopuGate, a manager of Telegram MTProto proxies written in Go: an engine
-- (telemt) runs in containers, and the program keeps its secrets, upstreams and settings in
-- SQLite.
--
-- Parts and files. A store (internal/store) turns method calls into SQL statements on its table; a
-- service (internal/service) checks a request and calls the stores; the scheduler and the HTTP
-- handlers call the services.
--   * Prelude: Boolean tests, the integers over native numbers, texts as lists of bytes.
--   * Model: the rows (internal/model/secret.go, upstream.go, traffic.go) and `Tables`, the
--     state of the database: each table as the list of its rows in the order of their ids.
--   * Sys: the monad of the methods. A method is a function of the environment and the tables
--     that returns a value or an error, as the Go functions do. `Env` holds what is outside the
--     program: which database calls fail, the random bytes, the clock, the functions of package
--     time, the result of a connection test. Sys/Keeps and Sys/Ensures hold the rules of a program
--     logic: invariants of the tables, and triples with one postcondition for values and one for
--     errors.
--   * SecretStore: internal/store/secret_store.go and parseExpiry of settings_store.go. Rows
--     holds one function per SQL clause, Defs, Expiry and Bulk one function per method.
--   * Telemt: pkg/telemt/secret.go, with encoding/hex.
--   * SecretService: internal/service/secret_service.go (Defs, and ImportSecrets in Import).
--   * Settings: internal/model/settings.go and internal/store/settings_store.go.
--   * UpstreamStore: `Validate` of internal/model/upstream.go, and
--     internal/store/upstream_store.go.
--   * UpstreamService: internal/service/upstream_service.go: the operations, the health checks
--     with failover and recovery, and ADR-001 (no shadowsocks upstream next to the Middle-Proxy).
--   * UpstreamNames: the names that internal/service/upstream_service.go makes up for bulk
--     additions, with strings.Trim and net.SplitHostPort.
--   * ProxyLine: ParseProxyLine of internal/service/upstream_service.go, which reads a line of a
--     bulk check in one of its forms.
--   * Traffic: internal/store/traffic_store.go and alert_store.go (Store), and of
--     internal/service/traffic_service.go the flush (Flush) and the quotas and expiry checks
--     (Quota).
--   * Format: what Go's fmt writes for %d and %q, with a reader of quoted strings by the rules of
--     TOML; FormatBytes of pkg/fmtutil/bytes.go (Bytes).
--   * Config: pkg/telemt/config.go, the configuration of an engine: its types (Defs), its making
--     from settings, secrets and upstreams (Access, Parts, Build), and its text (Lines, Server,
--     Render). Headers is about the table headers of the text, Arrays about its arrays of strings,
--     Policy about the access section.
--   * Model/Instance, InstanceModel and InstanceStore: internal/model/instance.go with Validate,
--     and internal/store/instance_store.go with BackfillAPIPorts (Ports).
--   * Containers: of internal/service/container_service.go the names and ports of containers, the
--     temporary container that takes over while another drains (Swing), and the configuration of
--     an instance with its reload (Config), which keeps what is written apart from how the reload
--     ends.
--   * Scheduler: internal/scheduler/scheduler.go (Tasks, Runtime), and in Service
--     internal/store/scheduler_store.go and UpdateTask of internal/service/scheduler_service.go. An
--     entry of the cron is the schedule of a task, without its function and its timeout.
--   * Examples: sample tables, and the theorems at concrete inputs.
-- Functions keep their Go names in snake case.
--
-- Loops are structural recursion on lists, and on fuel where the code counts or tests. The fuel of
-- collapseDashes is the length of the text: each round shortens the text, so that no double dash
-- is left when it is used up. The digits of a number n take the fuel n + 1, since each division by
-- ten makes the number smaller. The search for an API port has the number of used ports and one
-- more: so many different ports cannot all be in use. The loop of FormatBytes has six rounds: a
-- count of 64 bits is below 1024 behind five divisions. The search for a temporary container has
-- the hundred rounds that the code writes. int and int64 are the integers without a bound, but for
-- the percentage of a quota and the divisor of FormatBytes, whose products of 64 bits wrap around:
-- the rest of the modelled code compares, copies and adds them, and sums of bytes stay below 2 ^ 63. Ids and failure counts are natural numbers.
--
-- Calls run one after another: a request of Serve is one call, and the check that `Add` starts in
-- the background is a request of its own. Reads and writes of one call are not interleaved with
-- those of another.
--
-- Parameters: the table of printable characters of package unicode, encoding/json, the cron
-- library (which schedules it takes), the text of %.1f, the time stamp of a configuration, and
-- what Docker, the firewall and the host answer (which containers run, which ports are free, which
-- redirects stand) and whether the disk takes a file, which are arguments of the definitions that
-- ask.
--
-- Not modelled: the HTTP handlers and the Telegram bot, which are input and output around the
-- services; starting and stopping containers, draining, updates and replication, which drive
-- outside systems; the running of the tasks of the scheduler, which is goroutines and timers;
-- fetching the metrics of the engines; the read-only searches and links of secrets; log lines, and
-- the messages and engine reloads behind a health check, with the reads that they make. Error
-- values keep what tells the errors apart, not their words.
pub mod Prelude
pub mod Model
pub mod Sys
pub mod SecretStore
pub mod Telemt
pub mod SecretService
pub mod Settings
pub mod UpstreamStore
pub mod Traffic
pub mod UpstreamNames
pub mod UpstreamService
pub mod Format
pub mod Config
pub mod InstanceModel
pub mod InstanceStore
pub mod Containers
pub mod Scheduler
pub mod ProxyLine
mod Examples
