-- ===== src/Tokens/Laws.antt =====
-- What a token that verifies has shown.
use jarvis_ai_coo.Prelude.{
  ℕ, ◌≤◌, Text, ◌≡◌, ◌≢◌, refl, false, text_eq, Option, none, some, arith, Bool-cases, inl, inr,
}
use jarvis_ai_coo.Strings.{is_empty}
use jarvis_ai_coo.Tokens.{
  TokenLibrary, TokenClaims, Verdict, valid, failed, not_configured, token_version, split_dot,
  is_ascii, b64decode, check_claims, check_signature, verify_parts, verify_token, and_then,
  unicode_error,
}

-- The evidence behind accepted claims, at the time `now`.
pub record IsSigned (lib : TokenLibrary) (token signing_key : Text) (now : ℕ) (claims : TokenClaims)
    : Type 0 where
  pub payload : Text
  pub signature : Text
  pub raw : Text
  pub key_given : is_empty signing_key ≡ false
  pub parts : split_dot token ≡ some (payload, signature)
  pub signed : b64decode lib signature ≡ some (lib.hmac_sha256 signing_key payload)
  pub decoded : b64decode lib payload ≡ some raw
  pub loaded : lib.load_claims raw ≡ some claims
  pub version : claims.ver ≡ token_version
  pub unexpired : now ≤ claims.exp

claims_ok :
    (now : ℕ) (found : Option TokenClaims) (claims : TokenClaims)
    → check_claims now found ≡ valid claims
    → (found ≡ some claims) × (claims.ver ≡ token_version) × (now ≤ claims.exp)
unfolding check_claims
claims_ok now none claims h = cc
claims_ok now (some c) claims h = ground arith

and_then-eq_some :
    {A B : Type 0} (x : Option A) (f : A → Option B) (b : B)
    → and_then x f ≡ some b
    → (a : A) × (x ≡ some a) × (f a ≡ some b)
and_then-eq_some none f b h = cc
and_then-eq_some (some a) f b h = (a, refl, h)

module _ (lib : TokenLibrary) (signing_key : Text) (now : ℕ) (claims : TokenClaims) where
  signature_ok :
      (expected payload : Text) (supplied : Option Text)
      → check_signature lib now expected payload supplied ≡ valid claims
      → (supplied ≡ some expected)
        × (check_claims now (and_then (b64decode lib payload) lib.load_claims) ≡ valid claims)
  unfolding check_signature
  signature_ok expected payload none h = cc
  signature_ok expected payload (some supplied) h = ground arith

  parts_ok :
      (token : Text) (parts : Option (Text × Text))
      → is_empty signing_key ≡ false
      → split_dot token ≡ parts
      → verify_parts lib signing_key now parts ≡ valid claims
      → IsSigned lib token signing_key now claims
  unfolding verify_parts
  parts_ok token none key_given is h = cc
  parts_ok token (some (payload, signature)) key_given is h =
      let (signed, checked) =
        signature_ok (lib.hmac_sha256 signing_key payload) payload (b64decode lib signature)
          (ground arith) in
      let (found, version, unexpired) =
        claims_ok now (and_then (b64decode lib payload) lib.load_claims) claims checked in
      let (raw, decoded, loaded) =
        and_then-eq_some (b64decode lib payload) lib.load_claims claims found in
      record {
        payload = payload;
        signature = signature;
        raw = raw;
        key_given = key_given;
        parts = is;
        signed = signed;
        decoded = decoded;
        loaded = loaded;
        version = version;
        unexpired = unexpired;
      }

  -- A token that `verify_token` accepts has been signed: a signing key is configured, the token is a
  -- payload and a signature joined by a dot, the signature decodes to the HMAC of the payload's very
  -- text under the key, the payload decodes to the claims that are returned, their version is the
  -- supported one, and they have not expired.
  pub verify_token-IsSigned :
      (token : Text)
      → verify_token lib token signing_key now ≡ valid claims
      → IsSigned lib token signing_key now claims
  unfolding verify_token
  verify_token-IsSigned token h = elim (Bool-cases (is_empty signing_key)) [
    | inl no_key ↦ cc (rw no_key at h)
    | inr key_given ↦ parts_ok token (split_dot token) key_given refl (rw key_given at h)
  ]

no_unicode_error :
    (now : ℕ) (found : Option TokenClaims) → check_claims now found ≢ failed unicode_error
unfolding check_claims
no_unicode_error now none h = ground arith
no_unicode_error now (some claims) h = ground arith

signature_no_unicode_error :
    (lib : TokenLibrary) (now : ℕ) (expected payload : Text) (supplied : Option Text)
    → check_signature lib now expected payload supplied ≢ failed unicode_error
unfolding check_signature
signature_no_unicode_error lib now expected payload none h = ground arith
signature_no_unicode_error lib now expected payload (some supplied) h =
    ground (arith, no_unicode_error now (and_then (b64decode lib payload) lib.load_claims))

-- A token that ends `verify_token` with the encoding error.
pub record IsUnencodable (token signing_key : Text) : Type 0 where
  pub payload : Text
  pub signature : Text
  pub key_given : is_empty signing_key ≡ false
  pub parts : split_dot token ≡ some (payload, signature)
  pub wide : is_ascii payload ≡ false

parts-IsUnencodable :
    (lib : TokenLibrary) (token signing_key : Text) (now : ℕ) (parts : Option (Text × Text))
    → is_empty signing_key ≡ false
    → split_dot token ≡ parts
    → verify_parts lib signing_key now parts ≡ failed unicode_error
    → IsUnencodable token signing_key
unfolding verify_parts
parts-IsUnencodable lib token signing_key now none key_given is h = absurd (ground arith)
parts-IsUnencodable lib token signing_key now (some (payload, signature)) key_given is h =
    elim (Bool-cases (is_ascii payload)) [
      | inl plain ↦ absurd (
          signature_no_unicode_error lib now (lib.hmac_sha256 signing_key payload) payload
            (b64decode lib signature) (rw plain at h))
      | inr wide ↦ record {
        payload = payload;
        signature = signature;
        key_given = key_given;
        parts = is;
        wide = wide;
      }
    ]

not_unicode_error : ◌≢◌ {A = Verdict TokenClaims} (failed not_configured) (failed unicode_error)
not_unicode_error e = ground arith

pub verify_token-IsUnencodable :
    (lib : TokenLibrary) (token signing_key : Text) (now : ℕ)
    → verify_token lib token signing_key now ≡ failed unicode_error
    → IsUnencodable token signing_key
unfolding verify_token
verify_token-IsUnencodable lib token signing_key now h = elim (Bool-cases (is_empty signing_key)) [
  | inl no_key ↦ absurd (not_unicode_error (rw no_key at h))
  | inr key_given ↦
      parts-IsUnencodable lib token signing_key now (split_dot token) key_given refl
        (rw key_given at h)
]

-- A token whose payload part is not ASCII, under a configured key, is answered by no `TokenError`: the
-- encoding error of `payload_b64.encode("ascii")` leaves `verify_token`.
pub verify_token-unicode :
    (lib : TokenLibrary) (token signing_key : Text) (now : ℕ) (payload signature : Text)
    → is_empty signing_key ≡ false
    → split_dot token ≡ some (payload, signature)
    → is_ascii payload ≡ false
    → verify_token lib token signing_key now ≡ failed unicode_error
unfolding verify_token verify_parts
verify_token-unicode lib token signing_key now payload signature key_given parts bad =
    rw (key_given, parts, verify_parts) (rw bad)
