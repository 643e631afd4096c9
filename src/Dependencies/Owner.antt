-- ===== src/Dependencies/Owner.antt =====
-- `require_owner`
use jarvis_ai_coo.Prelude.{not}
use jarvis_ai_coo.Tenant.{TenantContext, is_owner}
use jarvis_ai_coo.Errors.{owner_only}
use jarvis_ai_coo.Database.{Action, raise_if}

unfoldable pub require_owner : TenantContext → Action Unit
unfolding is_owner
require_owner context = raise_if (not (is_owner context)) owner_only
