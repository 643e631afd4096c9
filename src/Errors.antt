-- ===== src/Errors.antt =====
-- What a request can end with instead of a response: each `raise` of the routers and dependencies,
-- and the exceptions of the database layer that no handler catches (a response with status 500).
use jarvis_ai_coo.Prelude.{ℕ}

pub data Error : Type 0 where
  -- app/routers/skills.py
  skill_not_found version_not_found : Error
  active_immutable disabled_immutable : Error
  disabled_takes_no_version only_active_takes_versions : Error
  tool_not_requested empty_department : Error
  disabled_not_reactivated cannot_activate cannot_disable : Error
  -- app/dependencies.py
  missing_identity unknown_organization owner_only : Error
  -- app/routers/auth.py
  bad_ttl issuance_disabled : Error
  -- app/schemas.py, and the bounds that `Query` and `Field` declare
  validation_error : Error
  -- `IntegrityError`, `InvalidRequestError`, `MultipleResultsFound`; `UnicodeEncodeError`
  integrity_error stale_row multiple_results encode_error : Error

-- The status of the response.
unfoldable pub status_code : Error → ℕ
status_code skill_not_found = 404
status_code version_not_found = 404
status_code active_immutable = 409
status_code disabled_immutable = 409
status_code disabled_takes_no_version = 409
status_code only_active_takes_versions = 409
status_code tool_not_requested = 422
status_code empty_department = 422
status_code disabled_not_reactivated = 409
status_code cannot_activate = 409
status_code cannot_disable = 409
status_code missing_identity = 403
status_code unknown_organization = 403
status_code owner_only = 403
status_code bad_ttl = 422
status_code issuance_disabled = 503
status_code validation_error = 422
status_code integrity_error = 500
status_code stale_row = 500
status_code multiple_results = 500
status_code encode_error = 500
