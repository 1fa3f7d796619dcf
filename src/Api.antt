-- ===== src/Api.antt =====
-- internal/api: the handlers of the S3 and HTTP protocols.
mod Tests
pub mod Keys
pub mod Multipart
pub mod Handler
pub mod KeyLock
pub mod Http
pub mod Aws
pub mod S3
