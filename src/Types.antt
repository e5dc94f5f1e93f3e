-- ===== src/Types.antt =====
-- lib.rs: return codes and identifiers.
pub mod ReturnCode
pub mod Identifiers
