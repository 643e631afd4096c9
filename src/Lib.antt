-- ===== src/Lib.antt =====
-- The skill registry of this repository: a multi-tenant service in which organizations draft,
-- version, activate and disable "skills", and approve the tools that a skill's version may use. The
-- program is `app/`, a FastAPI application over SQLAlchemy; its core is `app/routers/skills.py`.
--
-- The parts, and the file of each:
-- Models: the rows of `app/models.py` as records, and the database as its tables, each the list of
--   its rows, the last inserted first.
-- Tenant, Lifecycle, Audit: `app/tenant.py`, `app/lifecycle.py` and `app/audit.py`.
-- Database: the session of `app/database.py`. An `Action` takes a session and returns a result or
--   an error, and the session after it. A session has the tenant (`tenant_context_var`), the stored
--   tables and the working copy that it reads and writes; `commit` stores the working copy, and
--   `get_db` forgets what a request did not commit. Database/Tables: every SELECT passes the criteria
--   of `_apply_tenant_isolation`, and an insert fails on a primary key or a unique constraint that is
--   taken. A flush that changes no column sends no UPDATE, as SQLAlchemy does.
-- Errors: the exceptions that end a request, with their status codes.
-- Patterns: regular expressions as Python's `re` reads them under `re.IGNORECASE`, as far as
--   `app/schemas.py` uses them: `search_in` computes, `Found` says what a match is.
-- Schemas: the payloads of `app/schemas.py`, the inbound ones as they are sent (Bodies) and as they
--   are after validation (Payloads); `sanitize_text` (Texts) and `sanitize_tools` (Sanitize).
-- Dependencies: `get_tenant_context` and `require_owner` of `app/dependencies.py`; Identity is about
--   whom a request acts as, Failures about the errors of the resolution.
-- Tokens, Auth: `app/tokens.py` and `app/routers/auth.py`.
-- Skills: the ten handlers of `app/routers/skills.py` and their helpers. Json writes out what
--   `compute_version_hash` hashes: `json.dumps` with sorted keys and the default escapes.
-- Requests: a request of one of the six routes that write, in a session of its own with the tenant
--   context that `get_tenant_context` resolved; a run is a list of requests of any tenants.
-- Gateway: a request as it arrives, with headers and a body. `receive` resolves the headers, validates
--   the body and runs the handler in one session, in the order in which FastAPI does.
-- Reading: a query of one of the four routes that only read, in a session of its own.
-- RateLimit: the limiter of `app/ratelimit.py`, and its middleware (Middleware).
-- Registry: the specification of the registry as a step relation on the stored tables (Step), its
--   refinement by the handlers (Refines), and what follows from it alone (Evolution, Isolation,
--   Audited, Members). A step is indexed by the request that asks for it. Sound: what the tables keep
--   true of one another; Complete: the runtime payload of such tables; Clean: what they keep of the
--   validation; Fingerprint: what a version hash tells apart, over Json/Unescape, which reads a dump
--   back.
-- Seeding: `seed_fixture_organizations` of `app/main.py`. Configuration: the settings of
--   `app/config.py`, and `lifespan` of `app/main.py`.
-- Migrations: the revisions of `alembic/versions/` as lists of alembic operations on a schema, for
--   SQLite and PostgreSQL (Revisions), the operations (Tables), and the rows that 0003 fills
--   (Backfill). A column that is added stands first.
-- Strings and Prelude: `str.strip`, comparison of texts, and what all the others share.
-- Examples: runs on concrete data.
--
-- Conventions. A text is the list of its code points and a byte string the list of its bytes. The
-- n-th value of `uuid.uuid4`, the n-th reading of the clock, SHA-256, `str.lower` and `str.isalnum`
-- are parameters (`Env`), of which nothing is assumed, but for what a version hash names, which
-- takes that the two snapshots at hand do not collide (`NoCollision`); so are `hmac`, `base64` and the
-- JSON of pydantic (`TokenLibrary`), but for the round trip and the lifetime of a token, which take
-- what `base64` documents at the two byte strings of the token (`Encodes`). Where two ids of `uuid4`
-- agree, the insert fails, as it does in the program. Times are numbers of ticks. `ORDER BY` leaves
-- ties in the order of the table, ascending or descending. Every definition is structurally recursive;
-- only `decimal_within` (Json) counts its rounds, of which n + 1 are enough for the digits of n.
--
-- Not modelled: the requests run one behind another, so that concurrent transactions are not
-- covered; foreign keys and cascades, of which the program deletes nothing; how the settings are
-- read, the wiring of `app/main.py`; `alembic/env.py`. Which bodies are JSON, and the types of their
-- fields, are left to pydantic: a field is absent, `null`, of another type or a value.
pub mod Prelude
pub mod Models
pub mod Tenant
pub mod Lifecycle
pub mod Errors
pub mod Database
pub mod Audit
pub mod Strings
pub mod Patterns
pub mod Tokens
pub mod Dependencies
pub mod Json
pub mod Schemas
pub mod Skills
pub mod Requests
pub mod Gateway
pub mod Reading
pub mod Registry
pub mod RateLimit
pub mod Auth
pub mod Examples
pub mod Seeding
pub mod Configuration
pub mod Migrations
