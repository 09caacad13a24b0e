-- ===== src/Tests.antt =====
-- Concrete sessions and worlds, and what the theorems say of them.
pub mod Fixtures
pub mod Objects
pub mod Api
pub mod Controller
pub mod Children
pub mod Reconciler
pub mod GitProxy
pub mod Remote
pub mod Runai
pub mod Images
pub mod Tokens
pub mod Cloner
pub mod Routing
