-- ===== src/Stream.antt =====
-- src/common: byte order, stream buffers, and the typed input and output streams.
pub mod Host
pub mod ByteOrder
pub mod Buffer
pub mod Output
pub mod Input
pub mod Sample
pub mod RoundTrip
pub mod Values
mod Tests
