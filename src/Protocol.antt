-- ===== src/Protocol.antt =====
-- protocol/v1: the wire contract. The children model its documents and their validation.
pub mod Json
pub mod Formats
pub mod Job
pub mod Result
pub mod Error
pub mod Values
pub mod Condition
pub mod Envelope
pub mod Control
pub mod Signing
pub mod Canonical
