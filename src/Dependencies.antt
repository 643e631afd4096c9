-- ===== src/Dependencies.antt =====
-- app/dependencies.py
mod Owner
mod Context
pub mod Identity
pub mod Failures
unfoldable pub use Owner.{require_owner}
unfoldable pub use Context.*
