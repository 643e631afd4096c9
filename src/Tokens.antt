-- ===== src/Tokens.antt =====
-- app/tokens.py: signed bearer tokens. A text is its code points and a byte string its bytes.
pub mod Laws
pub mod Roundtrip
use jarvis_ai_coo.Prelude.{
  ℕ, zero, suc, ◌+◌, ◌-◌, ◌%◌, Text, codes, ◌≡◌, Bool, true, false, not, ◌&&◌, ◌==◌, text_eq,
  nat_eq, Option, none, some, List, [], ◌∷◌, ◌++◌, length, leb, ltb, if◌then◌else◌,
}
use jarvis_ai_coo.Strings.{is_empty}

-- `_TOKEN_VERSION`
abbrev pub token_version : Text
token_version = codes "v1"

-- `TokenClaims`; `exp` is in seconds
pub record TokenClaims : Type 0 where
  pub organization_id : Text
  pub user_id : Text
  pub exp : ℕ
  pub ver : Text

-- What the module takes from `hmac`, `base64` and pydantic: `hmac.new(key.encode("utf-8"), payload,
-- sha256).digest()`, the two base64 functions, of which the decoder may raise, `model_dump_json` as
-- UTF-8, and `model_validate(json.loads(…))`, which may raise.
pub record TokenLibrary : Type 0 where
  pub hmac_sha256 : Text → Text → Text
  pub urlsafe_b64encode : Text → Text
  pub urlsafe_b64decode : Text → Option Text
  pub dump_claims : TokenClaims → Text
  pub load_claims : Text → Option TokenClaims

-- The `TokenError`s, and the `UnicodeEncodeError` of a `str` that is not ASCII, which is none.
pub data TokenFailure : Type 0 where
  not_configured malformed_token bad_signature malformed_claims unsupported_version token_expired :
      TokenFailure
  unicode_error : TokenFailure

pub data Verdict (A : Type 0) : Type 0 where
  valid : A → Verdict A
  failed : TokenFailure → Verdict A

-- `bytes.rstrip(b"=")`
unfoldable pub rstrip_pad : Text → Text
rstrip_pad [] = []
rstrip_pad (c ∷ s) = let rest = rstrip_pad s in if is_empty rest && c == b'=' then [] else c ∷ rest

unfoldable pub replicate : ℕ → ℕ → Text
replicate zero c = []
replicate (suc n) c = c ∷ replicate n c

module _ (lib : TokenLibrary) where
  -- `_b64encode`
  unfoldable pub b64encode : Text → Text
  unfolding rstrip_pad
  b64encode raw = rstrip_pad (lib.urlsafe_b64encode raw)

  -- `_b64decode`, with `-len(data) % 4` signs of padding
  unfoldable pub b64decode : Text → Option Text
  unfolding replicate
  b64decode s = lib.urlsafe_b64decode (s ++ replicate ((4 - length s % 4) % 4) b'=')

  -- `issue_token` at the time `now`
  unfoldable pub issue_token : Text → Text → Text → ℕ → ℕ → Verdict Text
  unfolding b64encode
  issue_token organization_id user_id signing_key ttl_seconds now =
      if is_empty signing_key
      then failed not_configured
      else (let claims : TokenClaims = record {
        organization_id = organization_id;
        user_id = user_id;
        exp = now + ttl_seconds;
        ver = token_version;
      } in
          let payload = b64encode (lib.dump_claims claims) in
          valid (payload ++ b'.' ∷ b64encode (lib.hmac_sha256 signing_key payload)))

-- `token.split(".", 1)`, which unpacks into two parts only if there is a dot
abbrev in_front : ℕ → Option (Text × Text) → Option (Text × Text)
in_front c none = none
in_front c (some (front, back)) = some (c ∷ front, back)

unfoldable pub split_dot : Text → Option (Text × Text)
split_dot [] = none
split_dot (c ∷ s) = let rest = split_dot s in if c == b'.' then some ([], s) else in_front c rest

-- what `str.encode("ascii")` takes
unfoldable pub is_ascii : Text → Bool
is_ascii [] = true
is_ascii (c ∷ s) = ltb c 128 && is_ascii s

-- the end of `verify_token`, on the claims
unfoldable pub check_claims : ℕ → Option TokenClaims → Verdict TokenClaims
check_claims now none = failed malformed_claims
check_claims now (some claims) =
    if not (claims.ver == token_version)
    then failed unsupported_version
    else if ltb claims.exp now
    then failed token_expired
    else valid claims

abbrev pub and_then : {A B : Type 0} → Option A → (A → Option B) → Option B
and_then none f = none
and_then (some a) f = f a

module _ (lib : TokenLibrary) where
  -- the comparison of the signatures, and what follows it
  unfoldable pub check_signature : ℕ → Text → Text → Option Text → Verdict TokenClaims
  unfolding check_claims b64decode
  check_signature now expected payload_b64 none = failed malformed_token
  check_signature now expected payload_b64 (some supplied) =
      if not (expected == supplied)
      then failed bad_signature
      else check_claims now (and_then (b64decode lib payload_b64) lib.load_claims)

  unfoldable pub verify_parts : Text → ℕ → Option (Text × Text) → Verdict TokenClaims
  unfolding check_signature b64decode
  verify_parts signing_key now none = failed malformed_token
  verify_parts signing_key now (some (payload_b64, signature_b64)) =
      if not (is_ascii payload_b64)
      then failed unicode_error
      else check_signature now (lib.hmac_sha256 signing_key payload_b64) payload_b64
          (b64decode lib signature_b64)

  -- `verify_token` at the time `now`
  unfoldable pub verify_token : Text → Text → ℕ → Verdict TokenClaims
  unfolding verify_parts split_dot
  verify_token token signing_key now =
      if is_empty signing_key
      then failed not_configured
      else verify_parts signing_key now (split_dot token)
