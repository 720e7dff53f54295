-- ===== src/Credentials.antt =====
-- internal/credentials: the life of a credential once it is there.
pub mod Tables
pub mod Guards
pub mod Idempotency
pub mod Lifecycle
pub mod Attempts
pub mod Failures
pub mod Guarded
pub mod Purging
pub mod Records
pub mod Replays
mod Examples
