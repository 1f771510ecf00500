-- ===== src/Sse.antt =====
-- The sse package: server-sent events. Texts are lists of bytes.
pub mod Encoder
pub mod Requests
pub mod Connection
mod Tests
