-- ===== src/MinimalBash.antt =====
-- packages/harness-minimal-bash/src: a coding agent that has the bash tool alone and runs the calls of
-- a turn one after the other. What its code has in common with the agent of
-- packages/harness-pi-no-compaction, word for word, is that agent's definition.
pub mod Config
pub mod Calls
pub mod State
pub mod Work
pub mod Commands
pub mod Completion
pub mod Handle
pub mod Harness
pub mod Quiet
pub mod Refusals
pub mod Silent
