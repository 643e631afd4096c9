-- ===== src/Schemas.antt =====
-- app/schemas.py: the payloads that come in and the responses that go out.
pub mod Payloads
pub mod Responses
pub mod Sanitize
pub mod Texts
pub mod Catalogue
pub mod Bodies
