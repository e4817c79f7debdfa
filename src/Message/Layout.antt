-- ===== src/Message/Layout.antt =====
-- Messages laid out in bytes, as the decoders of src/message.rs read them, and what the decoders
-- make of them.
pub mod OpenBytes
pub mod OpenTrip
pub mod OpenShort
pub mod FrameTrip
pub mod AttributeLayout
pub mod AttributeBytes
pub mod UpdateBytes
