-- ===== src/Remote.antt =====
-- Sessions that run on another cluster (internal/remote).
pub mod Models
pub mod Firecrest
pub mod Runai
pub mod Server
pub mod Tokens
