-- ===== src/Session.antt =====
-- src/session.rs: the transitions of the session, one module for each state, and the loop.
pub mod Common
pub mod IdleState
pub mod ConnectState
pub mod ActiveState
pub mod OpenSentState
pub mod OpenConfirmState
pub mod EstablishedState
pub mod Run
pub mod Post
pub mod Edges
pub mod Runs
pub mod Clock
pub mod Reach
pub mod ToIdle
pub mod Equipped
pub mod Notice
pub mod Handshake
pub mod Stranded
pub mod Collision
pub mod Stops
pub mod Tasks
pub mod Process
mod Tests
