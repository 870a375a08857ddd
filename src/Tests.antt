-- ===== src/Tests.antt =====
-- Runs of the theorems on concrete inputs.
pub mod Machine
mod Queues
mod Connections
mod Timers
mod Stages
mod Buffered
mod Looping
mod Loops
mod Events
mod Servers
