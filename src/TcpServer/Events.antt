-- ===== src/TcpServer/Events.antt =====
-- What a server does in the loop: the handlers on a consistent server, `Channel::handleEvents` of its
-- channels, rounds of the loop, and the states that a run reaches.
pub mod Keeping
pub mod Handlers
pub mod Arrivals
pub mod Dispatch
pub mod Rounds
pub mod Reach
