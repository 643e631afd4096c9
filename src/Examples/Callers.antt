-- ===== src/Examples/Callers.antt =====
-- Callers with headers and with tokens, signed by a toy library: the two base64 functions are the
-- identity, the HMAC is the key followed by the payload, and claims are three fixed bytes.
use jarvis_ai_coo.Prelude.{
  Text, codes, ◌≡◌, ◌↔◌, refl, ◌==◌, text_eq, none, some, [], ◌∷◌, ◌++◌, if◌then◌else◌, find,
  nat_eq,
}
use native.Mathlib.Decide.{ℕ_discrete}
use jarvis_ai_coo.Strings.{is_empty, strip, is_space, lstrip, rstrip}
use jarvis_ai_coo.Errors.{Error, unknown_organization, status_code}
use jarvis_ai_coo.Tokens.{
  TokenLibrary, TokenClaims, token_version, malformed_token, verify_token, split_dot, is_ascii,
  b64decode, replicate, check_signature, verify_parts, check_claims,
}
use jarvis_ai_coo.Tokens.Laws.{IsSigned, verify_token-IsSigned}
use jarvis_ai_coo.Database.{Session, raised, ◌>>=◌}
use jarvis_ai_coo.Dependencies.{
  Headers, AuthConfig, bearer, get_tenant_context, get_organization, get_membership, set_tenant,
}
use jarvis_ai_coo.Dependencies.Identity.{
  IsMember, get_tenant_context-IsMember, get_tenant_context-failed,
}
use jarvis_ai_coo.Dependencies.Failures.{BearsUnencodable, get_tenant_context-unicode}
use jarvis_ai_coo.Examples.Data.{env, acme, bob, session, bob_session}

abbrev bob_claims : TokenClaims
bob_claims = record { organization_id = acme; user_id = codes "bob"; exp = 50; ver = token_version }

abbrev pub library : TokenLibrary
library = record {
  hmac_sha256 = λ key payload. key ++ payload;
  urlsafe_b64encode = λ t. t;
  urlsafe_b64decode = λ t. some t;
  dump_claims = λ c. codes "bob=";
  load_claims = λ t. if t == codes "bob=" then some bob_claims else none;
}

abbrev pub config : AuthConfig
config = record { library = library; auth_signing_key = codes "k"; now = 40 }

-- Bob, who claims to be an owner
abbrev pub by_headers : Headers
by_headers = record {
  x_organization_id = some (codes " acme ");
  x_user_id = some (codes "bob");
  x_user_role = some (codes "owner");
  authorization = none;
}

abbrev pub bearing : Text → Headers
bearing token = record {
  x_organization_id = some acme;
  x_user_id = some (codes "bob");
  x_user_role = none;
  authorization = some (codes "bearer " ++ token);
}

get_tenant_context-IsMember_example : IsMember session bob × (bob_session ≡ bob_session)
unfolding ◌>>=◌ is_empty strip is_space lstrip rstrip nat_eq ℕ_discrete find text_eq bearer
    get_tenant_context get_organization get_membership set_tenant
get_tenant_context-IsMember_example =
    get_tenant_context-IsMember env config by_headers session bob_session bob refl

get_tenant_context-failed_example :
    get_tenant_context env config (bearing (codes "junk")) session
    ≡ (raised unknown_organization, session)
unfolding ◌>>=◌ is_empty strip is_space lstrip rstrip nat_eq ℕ_discrete find text_eq bearer
    verify_token split_dot
get_tenant_context-failed_example =
    get_tenant_context-failed env config (bearing (codes "junk")) session (codes "junk")
      malformed_token refl refl

get_tenant_context-unicode_example :
    ((e : Error) × (t : Session) × (get_tenant_context env config
          (bearing (233 ∷ codes ".x"))
          session
        ≡ (raised e, t))
      × (status_code e ≡ 500))
    ↔ BearsUnencodable env config (bearing (233 ∷ codes ".x"))
get_tenant_context-unicode_example =
    get_tenant_context-unicode env config (bearing (233 ∷ codes ".x")) session

unencodable : BearsUnencodable env config (bearing (233 ∷ codes ".x"))
unfolding is_empty strip is_space lstrip rstrip nat_eq ℕ_discrete text_eq bearer split_dot is_ascii
unencodable = (
  233 ∷ codes ".x",
  refl,
  record { payload = 233 ∷ []; signature = codes "x"; key_given = refl; parts = refl; wide = refl },
)

verify_token-IsSigned_example : IsSigned library (codes "bob.kbob") (codes "k") 40 bob_claims
unfolding verify_token is_empty nat_eq ℕ_discrete text_eq is_ascii split_dot b64decode replicate
    check_signature verify_parts check_claims
verify_token-IsSigned_example =
    verify_token-IsSigned library (codes "k") 40 bob_claims (codes "bob.kbob") refl
