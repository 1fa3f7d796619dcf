-- ===== src/Storage.antt =====
-- internal/storage: the storage that uploads go to.
pub mod Sftp
pub mod Shell
pub mod Backend
pub mod Rsync
