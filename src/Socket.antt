-- ===== src/Socket.antt =====
-- Package socket, but for its connection pool: calls of methods over a connection.
pub mod Varint
pub mod Wire
pub mod Client
pub mod Server
mod Tests
