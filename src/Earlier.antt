-- ===== src/Earlier.antt =====
-- Earlier stages of the library, where they differ from v1.7.
pub mod Polling
pub mod Refinement
pub mod Echo
pub mod EchoPoll
pub mod ChannelMap
pub mod Looping
pub mod Server
pub mod Buffered
