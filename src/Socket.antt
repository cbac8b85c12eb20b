-- ===== src/Socket.antt =====
-- lovensepy/socket_api: the client of the Socket API.
pub mod Client
pub mod Retry
pub mod Local
mod Tests
