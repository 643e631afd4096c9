-- ===== src/Database.antt =====
-- app/database.py: a request's session, its transaction, and the tenant isolation filter.
-- A request works on `working`, a copy of the tables; `commit` makes it the stored state, and the
-- end of the request drops what was not committed. The session also holds the `ContextVar` of
-- app/tenant.py, and how often a uuid or a time was drawn, by which the environment gives the next.
mod Monad
mod Tables
unfoldable pub use Monad.*
unfoldable pub use Tables.*
