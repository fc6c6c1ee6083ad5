-- ===== src/Api.antt =====
-- src/api: the client library.
pub mod Client
pub mod Receive
pub mod Program
pub mod LongAnswer
mod Tests
