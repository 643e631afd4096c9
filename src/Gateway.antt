-- ===== src/Gateway.antt =====
-- Requests as they arrive: their headers are resolved by `get_tenant_context`, their bodies validated,
-- and then the route of app/routers/skills.py runs, all in the one session of `get_db`. FastAPI runs
-- the dependencies before it validates the body.
pub mod Arrivals
pub mod Clean
pub mod Ownerless
use jarvis_ai_coo.Prelude.{Text, Option, none, some, List, [], ◌∷◌}
use jarvis_ai_coo.Errors.{validation_error}
use jarvis_ai_coo.Database.{Env, Server, Result, ◌>>=◌, or_raise, get_db}
use jarvis_ai_coo.Dependencies.{Headers, AuthConfig, get_tenant_context}
use jarvis_ai_coo.Schemas.Bodies.{
  DefinitionBody, ActivateBody, validate_create, validate_update, validate_version,
  validate_activate,
}
use jarvis_ai_coo.Requests.{
  Request, create_draft, update_draft, create_version, approve, activate, disable, Response, handle,
}

-- A request to a route that writes: the ids of its path, and its body.
pub data Submission : Type 0 where
  post_draft : DefinitionBody → Submission
  patch_draft : Text → DefinitionBody → Submission
  post_version : Text → DefinitionBody → Submission
  post_approval : Text → Text → Text → Submission
  post_activation : Text → ActivateBody → Submission
  post_disable : Text → Submission

-- the payload of a route, where there is one
abbrev pub with_payload : {A : Type 0} → (A → Request) → Option A → Option Request
with_payload route none = none
with_payload route (some payload) = some (route payload)

unfoldable pub validate : Env → Submission → Option Request
validate env (post_draft body) = with_payload create_draft (validate_create env body)
validate env (patch_draft id body) = with_payload (update_draft id) (validate_update env body)
validate env (post_version id body) = with_payload (create_version id) (validate_version env body)
validate env (post_approval id version_id tool) = some (approve id version_id tool)
validate env (post_activation id body) = with_payload (activate id) (validate_activate body)
validate env (post_disable id) = some (disable id)

unfoldable pub receive : Env → AuthConfig → Headers → Submission → Server → Result Response × Server
unfolding get_db
receive env config headers submission = get_db (do
  context ← get_tenant_context env config headers
  request ← or_raise (validate env submission) validation_error
  handle env context request)

-- A request and what it arrives with; the clock of `config` runs from one to the next.
pub record Arrival : Type 0 where
  pub config : AuthConfig
  pub headers : Headers
  pub submission : Submission

unfoldable pub receive_all : Env → List Arrival → Server → Server
unfolding receive
receive_all env [] server = server
receive_all env (arrival ∷ rest) server =
    receive_all env rest (receive env arrival.config arrival.headers arrival.submission server).1
