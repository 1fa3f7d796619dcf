-- ===== src/Auth.antt =====
-- internal/auth: the providers that check credentials, and the chains of them.
pub mod Types
mod Tests
pub mod External
pub mod Inline
pub mod Htpasswd
pub mod Chain
