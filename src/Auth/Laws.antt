-- ===== src/Auth/Laws.antt =====
-- The lifetime of an issued token.
use jarvis_ai_coo.Prelude.{
  ℕ, zero, suc, ◌+◌, ◌≤◌, Text, ◌≡◌, refl, sym, ◌∙◌, subst, false, Option, none, some, leb, text_eq,
  ltb, arith, if◌then◌else◌, ◌++◌, ◌∷◌, Bool-cases, ◌||◌, inl, inr,
}
use jarvis_ai_coo.Tenant.{TenantContext}
use jarvis_ai_coo.Strings.{is_empty}
use jarvis_ai_coo.Tokens.{
  TokenLibrary, TokenClaims, Verdict, valid, failed, token_expired, token_version, check_claims,
  issue_token, verify_token,
}
use jarvis_ai_coo.Tokens.Roundtrip.{Encodes, claims_for, issued_token, verify_encoded}
use jarvis_ai_coo.Database.{Session, Action, ok, pure, raise, ◌>>=◌}
use jarvis_ai_coo.Dependencies.{AuthConfig}
use jarvis_ai_coo.Auth.{ℤ, pos, negsuc, TokenOut, issue_access_token, check_ttl, ttl_of, token_out}

-- The number of seconds that a request asks for, if it asks for one that a token may live.
abbrev pub Asked : Option ℤ → ℕ → Type 0
Asked none n = n ≡ 3600
Asked (some (pos zero)) n = n ≡ 3600
Asked (some (pos (suc m))) n = n ≡ suc m
Asked (some (negsuc m)) n = ⊥

answered :
    (ttl : ℕ) (v : Verdict Text) (s t : Session) (out : TokenOut)
    → token_out ttl v s ≡ (ok out, t)
    → (out.expires_in ≡ ttl) × (v ≡ valid out.access_token)
unfolding token_out pure raise
answered ttl (valid token) s t out h = ground arith
answered ttl (failed f) s t out h = ground arith

bounded :
    (ttl : ℕ) (issue : ℕ → Verdict Text) (s t : Session) (out : TokenOut)
    → (check_ttl (pos ttl) >>= λ n. token_out n (issue n)) s ≡ (ok out, t)
    → (1 ≤ out.expires_in)
      × (out.expires_in ≤ 86400)
      × (out.expires_in ≡ ttl)
      × (issue out.expires_in ≡ valid out.access_token)
unfolding check_ttl ◌>>=◌
bounded ttl issue s t out h = elim (Bool-cases (ltb ttl 1 || ltb 86400 ttl)) [
  | inl bad ↦ cc (rw bad at h)
  | inr good ↦
      let (same, issued) = answered ttl (issue ttl) s t out (rw good at h) in
      (
        subst (λ n. 1 ≤ n) (sym same) (ground arith),
        subst (λ n. n ≤ 86400) (sym same) (ground arith),
        same,
        subst (λ n. issue n ≡ valid out.access_token) (sym same) issued,
      )
]

never_negative :
    (n : ℕ) (issue : ℕ → Action TokenOut) (s t : Session) (out : TokenOut)
    → (check_ttl (negsuc n) >>= issue) s ≡ (ok out, t)
    → ⊥
unfolding check_ttl ◌>>=◌
never_negative n issue s t out h = ground arith

-- The token of an answer is issued for the time that the answer states.
issued_for :
    (config : AuthConfig) (payload : Option ℤ) (context : TenantContext) (s t : Session)
    (out : TokenOut)
    → issue_access_token config payload context s ≡ (ok out, t)
    → (1 ≤ out.expires_in)
      × (out.expires_in ≤ 86400)
      × Asked payload out.expires_in
      × (issue_token config.library context.organization_id context.user_id config.auth_signing_key
            out.expires_in config.now
          ≡ valid out.access_token)
unfolding issue_access_token ttl_of
issued_for config none context s t out h = bounded 3600 _ s t out h
issued_for config (some (pos zero)) context s t out h = bounded 3600 _ s t out h
issued_for config (some (pos (suc n))) context s t out h = bounded (suc n) _ s t out h
issued_for config (some (negsuc n)) context s t out h = absurd (never_negative n _ s t out h)

key_of_issued :
    (lib : TokenLibrary) (organization_id user_id signing_key token : Text) (ttl now : ℕ)
    → issue_token lib organization_id user_id signing_key ttl now ≡ valid token
    → is_empty signing_key ≡ false
unfolding issue_token
key_of_issued lib organization_id user_id signing_key token ttl now h =
    elim (Bool-cases (is_empty signing_key)) [
      | inl no_key ↦ cc (rw no_key at h)
      | inr key_given ↦ key_given
    ]

same_valid : {a b : Text} → valid a ≡ valid b → a ≡ b
same_valid h = ground arith

checked :
    (later : ℕ) (claims : TokenClaims)
    → claims.ver ≡ token_version
    → check_claims later (some claims)
      ≡ (if leb later claims.exp then valid claims else failed token_expired)
unfolding check_claims
checked later claims version = ground arith

-- A token that the route issues lives between 1 and 86400 seconds: as long as was asked, or 3600 seconds
-- where the request has no payload or asks for 0. A negative number is never answered by a token. The
-- token is accepted under the configured key, with the caller's organization and user, up to the second
-- in which it was issued and the seconds that the answer states, and has expired after. The base64
-- functions do what they document at the two byte strings of the token (`Encodes`), and the claims load
-- from their own dump.
pub issue_access_token_bounds :
    (config : AuthConfig) (payload : Option ℤ) (context : TenantContext) (s t : Session)
    (out : TokenOut) (later : ℕ)
    (p : Encodes config.library (
      config.library.dump_claims
        (claims_for context.organization_id context.user_id (config.now + out.expires_in))))
    (m : Encodes config.library (config.library.hmac_sha256 config.auth_signing_key p.body))
    → issue_access_token config payload context s ≡ (ok out, t)
    → config.library.load_claims (
        config.library.dump_claims
          (claims_for context.organization_id context.user_id (config.now + out.expires_in)))
      ≡ some (claims_for context.organization_id context.user_id (config.now + out.expires_in))
    → (1 ≤ out.expires_in)
      × (out.expires_in ≤ 86400)
      × Asked payload out.expires_in
      × (verify_token config.library out.access_token config.auth_signing_key later ≡ (
          if leb later (config.now + out.expires_in)
          then valid
              (claims_for context.organization_id context.user_id (config.now + out.expires_in))
          else failed token_expired))
issue_access_token_bounds config payload context s t out later p m h loaded =
    let (least, most, asked, issued) = issued_for config payload context s t out h in
    let key_given = key_of_issued config.library _ _ config.auth_signing_key _ _ _ issued in
    let is : p.body ++ b'.' ∷ m.body ≡ out.access_token =
      same_valid (sym (issued_token config.library _ _ _ _ _ p m key_given) ∙ issued) in
    (
      least,
      most,
      asked,
      subst
          (λ token. verify_token config.library token config.auth_signing_key later ≡ (
            if leb later (config.now + out.expires_in)
            then valid
                (claims_for context.organization_id context.user_id (config.now + out.expires_in))
            else failed token_expired))
          is
          (verify_encoded config.library config.auth_signing_key later _ _ p m key_given loaded
            ∙ checked later _ refl),
    )
