-- ===== src/Reliability.antt =====
-- internal/platform/reliability/policy.go: retries with a growing delay, and which errors are tried
-- again. A `time.Duration` is an int64 of nanoseconds.
pub mod Duration
pub mod Policy
pub mod Backoff
pub mod Retry
mod Examples
