-- ===== src/Examples/Arrivals.antt =====
-- Bodies that are sent, and a run of requests as they arrive.
use jarvis_ai_coo.Prelude.{codes, ◌≡◌, refl, subst, some, List, [], ◌∷◌, text_eq, nat_eq, false}
use native.Mathlib.Decide.{ℕ_discrete}
use jarvis_ai_coo.Strings.{strip, is_space, lstrip, rstrip, is_empty, starts_with, is_infix}
use jarvis_ai_coo.Tenant.{TenantContext}
use jarvis_ai_coo.Patterns.{search_in}
use jarvis_ai_coo.Requests.{Request, serve_all}
use jarvis_ai_coo.Schemas.Payloads.{SkillDraftCreateIn}
use jarvis_ai_coo.Schemas.Sanitize.{
  tool_failure, is_tool_name, has_fragment, sanitize_tools, clean_tool,
}
use jarvis_ai_coo.Schemas.Texts.{
  kept, rejected, forbidden, comment_pattern, sanitize_text, verb_pattern, tautology_pattern,
  union_pattern, select_pattern, procedure_pattern, stacking_pattern,
}
use jarvis_ai_coo.Schemas.Texts.Judged.{Judges, sanitize_text-Judges, sanitize_text_again}
use jarvis_ai_coo.Schemas.Bodies.{absent, null, value, DefinitionBody, validate_create}
use jarvis_ai_coo.Schemas.Bodies.Fields.{Every}
use jarvis_ai_coo.Schemas.Bodies.Validated.{IsCleanDraft, validated_create}
use jarvis_ai_coo.Registry.Clean.{AllClean}
use jarvis_ai_coo.Gateway.{post_draft, post_disable, Arrival, receive_all}
use jarvis_ai_coo.Gateway.Arrivals.{Admits, receive_all-Admits}
use jarvis_ai_coo.Gateway.Clean.{receive_all-AllClean}
use jarvis_ai_coo.Examples.Data.{env, skill_id, email, tables, server}
use jarvis_ai_coo.Examples.Callers.{config, by_headers, bearing}

-- one text for each pattern, and one that passes
forbidden_texts :
    (sanitize_text env false (codes "a -- b") ≡ rejected (forbidden comment_pattern))
    × (sanitize_text env false (codes "1 Union all SELECT 2") ≡ rejected (forbidden union_pattern))
    × (sanitize_text env false (codes "Select it from there") ≡ rejected (forbidden select_pattern))
    × (sanitize_text env false (codes "Please DELETE it") ≡ rejected (forbidden verb_pattern))
    × (sanitize_text env false (codes "x or 'a'='a'") ≡ rejected (forbidden tautology_pattern))
    × (sanitize_text env false (codes "exec sp") ≡ rejected (forbidden procedure_pattern))
    × (sanitize_text env false (codes "a ;b") ≡ rejected (forbidden stacking_pattern))
    × (sanitize_text env false (codes " Undeleted; ") ≡ kept (codes "Undeleted;"))
unfolding sanitize_text search_in strip is_space lstrip rstrip nat_eq ℕ_discrete
forbidden_texts = (refl, refl, refl, refl, refl, refl, refl, refl)

abbrev read_body : DefinitionBody
read_body = record {
  name = value (codes "Triage");
  description = absent;
  department = value (codes " ops ");
  content = value (codes "Read.");
  requested_tools = value (email ∷ codes "crm.read" ∷ []);
}

abbrev payload : SkillDraftCreateIn
payload = record {
  name = codes "Triage";
  description = [];
  department = codes "ops";
  content = codes "Read.";
  requested_tools = email ∷ codes "crm.read" ∷ [];
}

read_validated : validate_create env read_body ≡ some payload
unfolding validate_create sanitize_text search_in strip is_space lstrip rstrip nat_eq ℕ_discrete
    sanitize_tools text_eq tool_failure is_tool_name has_fragment is_infix starts_with is_empty
    clean_tool
read_validated = refl

tables-AllClean : AllClean env tables
unfolding text_eq ℕ_discrete
tables-AllClean =
    let clean : IsCleanDraft env payload =
      subst (Every (IsCleanDraft env)) read_validated (validated_create env read_body) in
    record { skills = (clean, tt); versions = (clean, tt); approvals = (refl, tt) }

-- Bob sends a draft, then asks in vain to disable a skill; a bad token and a bad body are refused
abbrev pub arrivals : List Arrival
arrivals =
    record { config = config; headers = by_headers; submission = post_draft read_body }
    ∷ record { config = config; headers = by_headers; submission = post_disable skill_id }
    ∷ record {
      config = config;
      headers = bearing (codes "junk");
      submission = post_draft read_body;
    }
    ∷ record {
      config = config;
      headers = by_headers;
      submission = post_draft (record read_body { name = null });
    }
    ∷ []

receive_all-AllClean_example : AllClean env (receive_all env arrivals server).database
receive_all-AllClean_example = receive_all-AllClean env arrivals server tables-AllClean

receive_all-Admits_example :
    (requests : List (TenantContext × Request)) × Admits env server arrivals requests
    × (receive_all env arrivals server ≡ serve_all env requests server)
receive_all-Admits_example = receive_all-Admits env arrivals server

sanitize_text-Judges_example :
    Judges env false (codes " a -- b") (rejected (forbidden comment_pattern))
unfolding sanitize_text search_in strip is_space lstrip rstrip nat_eq ℕ_discrete
sanitize_text-Judges_example = sanitize_text-Judges env false (codes " a -- b")

sanitize_text_again_example :
    sanitize_text env false (codes "Undeleted;") ≡ kept (codes "Undeleted;")
unfolding sanitize_text search_in strip is_space lstrip rstrip nat_eq ℕ_discrete
sanitize_text_again_example =
    sanitize_text_again env false (codes " Undeleted; ") (codes "Undeleted;") refl
