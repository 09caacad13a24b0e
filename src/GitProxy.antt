-- ===== src/GitProxy.antt =====
-- The proxy that gives git requests of a session their credentials (internal/git-https-proxy).
pub mod Expiry
pub mod TokenStore
pub mod Proxy
