-- ===== src/Fsm.antt =====
-- src/fsm.rs: the session's state machine without its transitions.
pub mod Types
pub mod Runtime
pub mod Convert
pub mod TimerTask
