-- ===== src/Gateway/Clean.antt =====
-- What the tables hold has passed the validation of app/schemas.py, whatever arrives.
use jarvis_ai_coo.Prelude.{◌≡◌, sym, subst, Option, none, some, List, ◌∷◌, All, arith}
use jarvis_ai_coo.Tenant.{TenantContext}
use jarvis_ai_coo.Database.{Env, Server}
use jarvis_ai_coo.Schemas.Bodies.{
  validate_create, validate_update, validate_version, validate_activate,
}
use jarvis_ai_coo.Schemas.Bodies.Fields.{Every}
use jarvis_ai_coo.Schemas.Bodies.Validated.{
  IsCleanDraft, IsCleanUpdate, IsCleanVersion, validated_create, validated_version,
  validated_update,
}
use jarvis_ai_coo.Requests.{
  Request, create_draft, update_draft, create_version, approve, activate, disable,
}
use jarvis_ai_coo.Registry.Clean.{AllClean, IsValidated, serve_all-AllClean}
use jarvis_ai_coo.Gateway.{
  Submission, post_draft, patch_draft, post_version, post_approval, post_activation, post_disable,
  validate, with_payload, Arrival, receive_all,
}
use jarvis_ai_coo.Gateway.Arrivals.{Admits, none_left, turned_away, admitted, receive_all-Admits}

module _ {A : Type 0} (env : Env) (P : A → Type 0) (route : A → Request)
    (same : (a : A) → P a → IsValidated env (route a)) where
  routed :
      (o : Option A) (request : Request)
      → Every P o
      → with_payload route o ≡ some request
      → IsValidated env request
  routed none request h e = cc
  routed (some a) request h e = subst (IsValidated env) (ground arith) (same a h)

anything : {A : Type 0} (o : Option A) → Every (λ _. Unit) o
anything none = tt
anything (some a) = tt

validate-IsValidated :
    (env : Env) (submission : Submission) (request : Request)
    → validate env submission ≡ some request
    → IsValidated env request
unfolding validate
validate-IsValidated env (post_draft body) request e =
    routed env (IsCleanDraft env) create_draft (λ p h. h) (validate_create env body) request
      (validated_create env body) e
validate-IsValidated env (patch_draft id body) request e =
    routed env (IsCleanUpdate env) (update_draft id) (λ p h. h) (validate_update env body) request
      (validated_update env body) e
validate-IsValidated env (post_version id body) request e =
    routed env (IsCleanVersion env) (create_version id) (λ p h. h) (validate_version env body)
      request (validated_version env body) e
validate-IsValidated env (post_approval id version_id tool) request e =
    routed env (λ (_ : Unit). Unit) (λ _. approve id version_id tool) (λ p h. tt) (some tt) request
      tt e
validate-IsValidated env (post_activation id body) request e =
    routed env (λ _. Unit) (activate id) (λ p h. tt) (validate_activate body) request
      (anything (validate_activate body)) e
validate-IsValidated env (post_disable id) request e =
    routed env (λ (_ : Unit). Unit) (λ _. disable id) (λ p h. tt) (some tt) request tt e

Admits-IsValidated :
    (env : Env) (server : Server) (arrivals : List Arrival)
    (requests : List (TenantContext × Request))
    → Admits env server arrivals requests
    → All (λ (x : TenantContext × Request). IsValidated env x.1) requests
Admits-IsValidated env server _ _ none_left = tt
Admits-IsValidated env server _ _ (turned_away a) = Admits-IsValidated env server _ _ a
Admits-IsValidated env server (arrival ∷ arrivals) _ (admitted context request member body a) =
    (validate-IsValidated env arrival.submission request body, Admits-IsValidated env server _ _ a)

-- Whatever requests arrive, of whatever callers and with whatever bodies, what is stored stays clean:
-- every name, description, department and content of a skill or a version has no blank at its ends, is
-- no longer than its column and not empty unless it is a description, and holds no match of an
-- injection pattern; the tools that it requests are of the catalogue, each once; and no tool outside
-- the catalogue is ever approved.
pub receive_all-AllClean :
    (env : Env) (arrivals : List Arrival) (server : Server)
    → AllClean env server.database
    → AllClean env (receive_all env arrivals server).database
receive_all-AllClean env arrivals server c =
    let (requests, admits, run) = receive_all-Admits env arrivals server in
    subst (λ (s : Server). AllClean env s.database) (sym run)
      (serve_all-AllClean env requests server
        (Admits-IsValidated env server arrivals requests admits) c)
