-- ===== src/Tenant.antt =====
-- app/tenant.py: the tenant context. The `ContextVar` itself is a field of the session
-- (Database.antt).
use jarvis_ai_coo.Prelude.{Text, codes, text_eq, Bool, ◌==◌}

abbrev pub owner_role : Text
owner_role = codes "owner"

abbrev pub member_role : Text
member_role = codes "member"

pub record TenantContext : Type 0 where
  pub organization_id : Text
  pub user_id : Text
  pub role : Text

-- the property `is_owner`
unfoldable pub is_owner : TenantContext → Bool
is_owner context = context.role == owner_role
