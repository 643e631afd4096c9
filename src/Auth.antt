-- ===== src/Auth.antt =====
-- app/routers/auth.py
pub mod Laws
use jarvis_ai_coo.Prelude.{
  ℕ, zero, suc, ◌+◌, Text, codes, Bool, true, false, ◌||◌, not, Option, none, some, ltb,
  if◌then◌else◌,
}
use jarvis_ai_coo.Tenant.{TenantContext}
use jarvis_ai_coo.Errors.{bad_ttl, issuance_disabled}
use jarvis_ai_coo.Tokens.{TokenLibrary, Verdict, valid, failed, issue_token}
use jarvis_ai_coo.Database.{Action, pure, raise, raise_if, ◌>>=◌, ◌>>◌}
use jarvis_ai_coo.Dependencies.{AuthConfig}

-- A Python `int`: `negsuc n` is -(n + 1).
pub data ℤ : Type 0 where
  pos : ℕ → ℤ
  negsuc : ℕ → ℤ

pub record TokenOut : Type 0 where
  pub access_token : Text
  pub token_type : Text
  pub expires_in : ℕ

-- `payload.ttl_seconds if payload and payload.ttl_seconds else 3600`; a payload is its one field
unfoldable pub ttl_of : Option ℤ → ℤ
ttl_of none = pos 3600
ttl_of (some (pos zero)) = pos 3600
ttl_of (some (pos (suc n))) = pos (suc n)
ttl_of (some (negsuc n)) = negsuc n

-- `ttl < 1 or ttl > 86400`, and the number that is left
unfoldable pub check_ttl : ℤ → Action ℕ
check_ttl (pos n) = raise_if (ltb n 1 || ltb 86400 n) bad_ttl >> pure n
check_ttl (negsuc n) = raise bad_ttl

unfoldable pub token_out : ℕ → Verdict Text → Action TokenOut
token_out ttl (valid token) =
    pure (record { access_token = token; token_type = codes "bearer"; expires_in = ttl })
token_out ttl (failed _) = raise issuance_disabled

unfoldable pub issue_access_token : AuthConfig → Option ℤ → TenantContext → Action TokenOut
unfolding ttl_of check_ttl token_out
issue_access_token config payload context = do
  ttl ← check_ttl (ttl_of payload)
  token_out ttl (
      issue_token config.library context.organization_id context.user_id config.auth_signing_key ttl
        config.now)
