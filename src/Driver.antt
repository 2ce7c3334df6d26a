-- ===== src/Driver.antt =====
-- packages/session-runtime/src/driver.ts
pub mod Policy
pub mod State
pub mod Submit
pub mod Drain
pub mod Bounds
pub mod Invariant
pub mod Alarm
