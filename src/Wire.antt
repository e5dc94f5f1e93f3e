-- ===== src/Wire.antt =====
-- src/wire.rs: the SOME/IP wire format, a child module for each type.
pub mod Version
pub mod Cookie
pub mod MessageType
pub mod Header
pub mod Message
pub mod SdEntry
pub mod SdOption
pub mod SdMessage
