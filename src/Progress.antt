-- ===== src/Progress.antt =====
-- That provisioning ends well on a good day: each step, from its own conditions, returns without an
-- error or a panic.
pub mod Room
pub mod Crypto
pub mod Fit
pub mod Current
pub mod Services
pub mod Secrets
pub mod Identity
pub mod Certs
pub mod Network
pub mod Steps
pub mod Manager
pub mod Provision
pub mod Whole
pub mod Again
