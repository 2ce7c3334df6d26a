-- ===== src/Runtime.antt =====
-- packages/session-runtime
pub mod Event
pub mod Identity
pub mod Storage
pub mod Harness
pub mod Core
pub mod Inbox
pub mod Invariant
pub mod Insertion
pub mod Preservation
pub mod Growth
pub mod Coherence
pub mod Replay
pub mod Sessions
pub mod Calls
pub mod Retry
pub mod Atomicity
