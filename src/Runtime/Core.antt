-- ===== src/Runtime/Core.antt =====
-- packages/session-runtime/src/runtime.ts: one session's runtime object over its database. `now` is
-- the clock and `sha256` the library's digest. An object that `prepareNext` returns is told from an
-- equal one by its number, `reference`.
pub mod State
pub mod Insert
pub mod Prepare
pub mod Admission
pub mod Settle
pub mod Commit
pub mod Completion
pub mod Initialize
