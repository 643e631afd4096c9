-- ===== src/Requests.antt =====
-- The requests that change the database, behind one another on one server: the routes of
-- app/routers/skills.py with the tenant context that `get_tenant_context` has resolved.
mod Defs
mod Follows
pub mod History
pub mod Refusals
unfoldable pub use Defs.*
pub use Follows.*
