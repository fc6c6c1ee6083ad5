-- ===== src/Protocol.antt =====
-- src/protocol and src/include: packets as arrays of fields.
pub mod ErrorCode
pub mod Field
pub mod Fields
pub mod Wire
pub mod Encode
pub mod Decode
pub mod RoundTrip
pub mod Cut
pub mod Kinds
pub mod Messages
pub mod Send
mod Tests
