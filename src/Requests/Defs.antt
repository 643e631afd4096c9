-- ===== src/Requests/Defs.antt =====
-- Requests, and their handling in a session of their own.
use jarvis_ai_coo.Prelude.{Text, List, [], ◌∷◌}
use jarvis_ai_coo.Tenant.{TenantContext}
use jarvis_ai_coo.Dependencies.{set_tenant}
use jarvis_ai_coo.Database.{Env, Server, Result, Action, ◌>>=◌, ◌>>◌, pure, get_db}
use jarvis_ai_coo.Schemas.Payloads.{
  SkillDraftCreateIn, SkillDraftUpdateIn, SkillVersionCreateIn, SkillActivateIn,
}
use jarvis_ai_coo.Schemas.Responses.{SkillDetailOut, SkillVersionOut, ToolApprovalOut}
use jarvis_ai_coo.Skills.{
  create_skill_draft, update_skill_draft, create_skill_version, approve_tool, activate_skill,
  disable_skill,
}

pub data Request : Type 0 where
  create_draft : SkillDraftCreateIn → Request
  update_draft : Text → SkillDraftUpdateIn → Request
  create_version : Text → SkillVersionCreateIn → Request
  approve : Text → Text → Text → Request
  activate : Text → SkillActivateIn → Request
  disable : Text → Request

pub data Response : Type 0 where
  detail : SkillDetailOut → Response
  version : SkillVersionOut → Response
  approval : ToolApprovalOut → Response

-- The route of a request.
unfoldable pub handle : Env → TenantContext → Request → Action Response
handle env context (create_draft payload) = do
  out ← create_skill_draft env payload context
  pure (detail out)
handle env context (update_draft skill_id payload) = do
  out ← update_skill_draft env skill_id payload context
  pure (detail out)
handle env context (create_version skill_id payload) = do
  out ← create_skill_version env skill_id payload context
  pure (version out)
handle env context (approve skill_id version_id tool) = do
  out ← approve_tool env skill_id version_id tool context
  pure (approval out)
handle env context (activate skill_id payload) = do
  out ← activate_skill env skill_id payload context
  pure (detail out)
handle env context (disable skill_id) = do
  out ← disable_skill env skill_id context
  pure (detail out)

-- One request, from the opening of its session to its end.
unfoldable pub serve : Env → TenantContext → Request → Server → Result Response × Server
unfolding set_tenant get_db
serve env context request = get_db (set_tenant context >> handle env context request)

-- What the server is after some requests of any tenants, each answered or refused.
unfoldable pub serve_all : Env → List (TenantContext × Request) → Server → Server
serve_all env [] server = server
serve_all env ((context, request) ∷ rest) server =
    serve_all env rest (serve env context request server).1
