-- ===== src/Tokens/Roundtrip.antt =====
-- A token that `issue_token` makes, before `verify_token`.
use jarvis_ai_coo.Prelude.{
  ℕ, zero, suc, ◌+◌, ◌-◌, ◌%◌, ◌≤◌, ◌<◌, Text, ◌≡◌, refl, sym, ◌∙◌, subst, Bool, true, false, ◌&&◌,
  ◌||◌, ◌==◌, text_eq, nat_eq, some, [], ◌∷◌, ◌++◌, length, leb, arith,
}
use jarvis_ai_coo.Strings.{is_empty}
use jarvis_ai_coo.Tokens.{
  TokenLibrary, TokenClaims, valid, token_version, rstrip_pad, replicate, b64encode, b64decode,
  issue_token, split_dot, is_ascii, check_claims, check_signature, verify_parts, verify_token,
}

-- The URL-safe alphabet of RFC 4648.
abbrev pub is_base64 : ℕ → Bool
is_base64 c =
    leb b'A' c && leb c b'Z'
    || leb b'a' c && leb c b'z'
    || leb b'0' c && leb c b'9'
    || c == b'-'
    || c == b'_'

abbrev pub IsBase64 : Text → Type 0
IsBase64 [] = Unit
IsBase64 (c ∷ s) = (is_base64 c ≡ true) × IsBase64 s

-- What `base64` documents, at one byte string: its encoding is text of the alphabet, padded with fewer
-- than four signs to a multiple of four, and decodes to it.
pub record Encodes (lib : TokenLibrary) (raw : Text) : Type 0 where
  pub body : Text
  pub pad : ℕ
  pub encoded : lib.urlsafe_b64encode raw ≡ body ++ replicate pad b'='
  pub alphabet : IsBase64 body
  pub short : pad < 4
  pub whole : (length body + pad) % 4 ≡ 0
  pub decoded : lib.urlsafe_b64decode (body ++ replicate pad b'=') ≡ some raw

rstrip_pad-replicate : (n : ℕ) → rstrip_pad (replicate n b'=') ≡ []
unfolding rstrip_pad replicate is_empty
rstrip_pad-replicate zero = refl
rstrip_pad-replicate (suc n) = ground (arith, rstrip_pad-replicate n)

rstrip_pad-append : (s : Text) (n : ℕ) → IsBase64 s → rstrip_pad (s ++ replicate n b'=') ≡ s
unfolding rstrip_pad
rstrip_pad-append [] n h = rstrip_pad-replicate n
rstrip_pad-append (c ∷ s) n h = ground (arith, rstrip_pad-append s n h.1)

split_dot-append : (p s : Text) → IsBase64 p → split_dot (p ++ b'.' ∷ s) ≡ some (p, s)
unfolding split_dot
split_dot-append [] s h = ground arith
split_dot-append (c ∷ p) s h = ground (arith, split_dot-append p s h.1)

IsBase64-is_ascii : (s : Text) → IsBase64 s → is_ascii s ≡ true
unfolding is_ascii
IsBase64-is_ascii [] h = refl
IsBase64-is_ascii (c ∷ s) h = ground (arith, IsBase64-is_ascii s h.1)

padding : (n k : ℕ) → k < 4 → (n + k) % 4 ≡ 0 → (4 - n % 4) % 4 ≡ k
padding n k short whole = omega arith

-- The claims of a token for a user of an organization.
abbrev pub claims_for : Text → Text → ℕ → TokenClaims
claims_for organization_id user_id exp = record {
  organization_id = organization_id;
  user_id = user_id;
  exp = exp;
  ver = token_version;
}

accepted :
    (now : ℕ) (claims : TokenClaims)
    → claims.ver ≡ token_version
    → now ≤ claims.exp
    → check_claims now (some claims) ≡ valid claims
unfolding check_claims
accepted now claims version unexpired = ground arith

module _ (lib : TokenLibrary) where
  b64encode-eq : (raw : Text) (e : Encodes lib raw) → b64encode lib raw ≡ e.body
  unfolding b64encode
  b64encode-eq raw e = rw e.encoded (rstrip_pad-append e.body e.pad e.alphabet)

  b64decode-body : (raw : Text) (e : Encodes lib raw) → b64decode lib e.body ≡ some raw
  unfolding b64decode
  b64decode-body raw e =
      subst (λ n. lib.urlsafe_b64decode (e.body ++ replicate n b'=') ≡ some raw)
        (sym (padding (length e.body) e.pad e.short e.whole)) e.decoded

  -- a token of the two encodings under their key: what is left is the check of the claims
  pub verify_encoded :
      (signing_key : Text) (now : ℕ) (claims : TokenClaims) (raw : Text) (p : Encodes lib raw)
      (m : Encodes lib (lib.hmac_sha256 signing_key p.body))
      → is_empty signing_key ≡ false
      → lib.load_claims raw ≡ some claims
      → verify_token lib (p.body ++ b'.' ∷ m.body) signing_key now ≡ check_claims now (some claims)
  unfolding verify_token verify_parts check_signature
  verify_encoded signing_key now claims raw p m key_given loaded =
      rw (key_given, split_dot-append p.body m.body p.alphabet, verify_parts)
        (rw
          (
            IsBase64-is_ascii p.body p.alphabet,
            b64decode-body _ m,
            b64decode-body raw p,
            check_signature,
          )
          (ground (arith, loaded)))

  pub issued_token :
      (organization_id user_id signing_key : Text) (ttl_seconds now : ℕ)
      (p : Encodes lib (lib.dump_claims (claims_for organization_id user_id (now + ttl_seconds))))
      (m : Encodes lib (lib.hmac_sha256 signing_key p.body))
      → is_empty signing_key ≡ false
      → issue_token lib organization_id user_id signing_key ttl_seconds now
        ≡ valid (p.body ++ b'.' ∷ m.body)
  unfolding issue_token
  issued_token organization_id user_id signing_key ttl_seconds now p m key_given =
      rw (key_given, b64encode-eq _ p, b64encode-eq _ m) refl

  -- Under a signing key, `issue_token` returns a token, and until it expires `verify_token` accepts it
  -- under the same key, with the organization and the user that it was issued for. The base64 functions
  -- do what they document at the two byte strings of the token (`Encodes`), and the claims load from
  -- their own dump.
  pub issue_token-verify_token :
      (organization_id user_id signing_key : Text) (ttl_seconds now later : ℕ)
      (p : Encodes lib (lib.dump_claims (claims_for organization_id user_id (now + ttl_seconds))))
      (m : Encodes lib (lib.hmac_sha256 signing_key p.body))
      → is_empty signing_key ≡ false
      → lib.load_claims (lib.dump_claims (claims_for organization_id user_id (now + ttl_seconds)))
        ≡ some (claims_for organization_id user_id (now + ttl_seconds))
      → later ≤ now + ttl_seconds
      → (token : Text) × (issue_token lib organization_id user_id signing_key ttl_seconds now
          ≡ valid token)
        × (verify_token lib token signing_key later
            ≡ valid (claims_for organization_id user_id (now + ttl_seconds)))
  issue_token-verify_token organization_id user_id signing_key ttl_seconds now later p m key_given
        loaded early =
      (
        p.body ++ b'.' ∷ m.body,
        issued_token organization_id user_id signing_key ttl_seconds now p m key_given,
        verify_encoded signing_key later _ _ p m key_given loaded ∙ accepted later _ refl early,
      )
