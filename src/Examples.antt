-- ===== src/Examples.antt =====
-- Runs at concrete inputs.
pub mod Toy
pub mod Sessions
pub mod Drivers
pub mod Machines
pub mod Executions
pub mod Agents
pub mod Batches
pub mod Commands
