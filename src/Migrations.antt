-- ===== src/Migrations.antt =====
-- The migrations of alembic/versions/: what their operations do to the schema of the database.
mod Tables
mod Initial
mod Revisions
pub mod Undo
pub mod Backfill
unfoldable pub use Tables.*
unfoldable pub use Initial.*
unfoldable pub use Revisions.*
