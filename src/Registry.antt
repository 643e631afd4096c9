-- ===== src/Registry.antt =====
-- What the registry promises, apart from how the handlers are written: the changes that a request may
-- make to the stored tables.
mod Step
mod Lookup
mod Ends
mod Writes
mod Reads
pub mod Rows
pub mod Refines
pub mod Evolution
pub mod Isolation
pub mod Audited
pub mod Members
pub mod Sound
pub mod Complete
pub mod Clean
pub mod Fingerprint
unfoldable pub use Step.*
