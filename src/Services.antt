-- ===== src/Services.antt =====
-- The service controllers of operator/internal/controller, and the test that each `Reconcile`
-- begins with.
pub mod Redis
pub mod RustFs
pub mod Postgres
pub mod Ninegate
pub mod Glauth
pub mod Dex
pub mod Common
pub mod Configs
pub mod Wiring
