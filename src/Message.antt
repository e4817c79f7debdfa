-- ===== src/Message.antt =====
-- src/message.rs: the messages, their decoders and the framing of a message in the read buffer.
pub mod Types
pub mod Header
pub mod Open
pub mod Prefix
pub mod Attribute
pub mod Update
pub mod Frame
pub mod Refine
pub mod Reading
pub mod Ending
pub mod Acceptable
pub mod Framing
pub mod Cutting
pub mod Prefixes
mod Tests
pub mod Layout
pub mod Bytes
pub mod Front
