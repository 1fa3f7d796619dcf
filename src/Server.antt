-- ===== src/Server.antt =====
-- internal/server: the listeners of the program, and the requests that they route.
pub mod Router
pub mod Listeners
mod Tests
