-- ===== src/Growth.antt =====
-- Provisioning only adds: each step of `Reconcile` on a live resource creates objects of its
-- client, with the client's labels, and leaves every object that is there as it is.
pub mod Every
pub mod Secrets
pub mod Crypto
pub mod Network
pub mod Services
pub mod Provision
pub mod Whole
