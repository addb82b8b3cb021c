-- ===== src/Controller.antt =====
-- operator/internal/controller
pub mod Labels
pub mod Ensure
pub mod Password
pub mod Domain
pub mod Secrets
pub mod Status
pub mod Certificates
pub mod Cleanup
pub mod Reconcile
