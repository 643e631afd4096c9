-- ===== src/Patterns.antt =====
-- The part of Python's `re` that app/schemas.py uses, and what a match is.
mod Expressions
mod Runs
unfoldable pub use Expressions.*
pub use Runs.*
