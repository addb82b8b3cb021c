-- ===== src/Outcomes.antt =====
-- What the outcome of `Reconcile` says: which calls can return without an error, and what is then
-- held and stored.
pub mod Swallowed
pub mod Shared
pub mod Entries
pub mod Failure
pub mod Stuck
pub mod Live
pub mod Present
pub mod Objects
pub mod Ready
pub mod Deletion
pub mod Cleared
pub mod Undone
