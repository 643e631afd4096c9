-- ===== src/Examples/Tokens.antt =====
-- A token from `issue_token` to `verify_token`, by a toy library whose base64 is the text itself, padded.
use jarvis_ai_coo.Prelude.{
  Text, codes, ◌-◌, ◌+◌, ◌%◌, ◌≤◌, leb, ◌≡◌, refl, none, some, ◌++◌, length, ◌==◌, if◌then◌else◌,
  text_eq, nat_eq, arith,
}
use native.Mathlib.Decide.{ℕ_discrete}
use jarvis_ai_coo.Strings.{is_empty}
use jarvis_ai_coo.Tokens.{
  TokenLibrary, valid, failed, token_expired, b64encode, replicate, rstrip_pad, issue_token,
  verify_token,
}
use jarvis_ai_coo.Tokens.Roundtrip.{Encodes, claims_for, issue_token-verify_token}
use jarvis_ai_coo.Database.{◌>>=◌}
use jarvis_ai_coo.Dependencies.{AuthConfig}
use jarvis_ai_coo.Auth.{TokenOut, pos, issue_access_token, ttl_of, check_ttl, token_out}
use jarvis_ai_coo.Auth.Laws.{Asked, issue_access_token_bounds}
use jarvis_ai_coo.Examples.Data.{bob, bob_session}

abbrev padded : TokenLibrary
padded = record {
  hmac_sha256 = λ key payload. key ++ payload;
  urlsafe_b64encode = λ t. t ++ replicate ((4 - length t % 4) % 4) b'=';
  urlsafe_b64decode = λ t. some (rstrip_pad t);
  dump_claims = λ c. codes "bob";
  load_claims =
      λ t. if t == codes "bob" then some (claims_for (codes "acme") (codes "bob") 50) else none;
}

payload_decodes : some (rstrip_pad (codes "bob" ++ replicate 1 b'=')) ≡ some (codes "bob")
unfolding rstrip_pad replicate is_empty nat_eq ℕ_discrete
payload_decodes = refl

signature_decodes : some (rstrip_pad (codes "kbob" ++ replicate 0 b'=')) ≡ some (codes "kbob")
unfolding rstrip_pad replicate is_empty nat_eq ℕ_discrete
signature_decodes = refl

abbrev payload_encoded : Encodes padded (codes "bob")
payload_encoded = record {
  body = codes "bob";
  pad = 1;
  encoded = refl;
  alphabet = (refl, (refl, (refl, tt)));
  short = omega arith;
  whole = refl;
  decoded = payload_decodes;
}

abbrev signature_encoded : Encodes padded (codes "kbob")
signature_encoded = record {
  body = codes "kbob";
  pad = 0;
  encoded = refl;
  alphabet = (refl, (refl, (refl, (refl, tt))));
  short = omega arith;
  whole = refl;
  decoded = signature_decodes;
}

issue_token-verify_token_example :
    (token : Text) × (issue_token padded (codes "acme") (codes "bob") (codes "k") 10 40
      ≡ valid token)
    × (verify_token padded token (codes "k") 45
        ≡ valid (claims_for (codes "acme") (codes "bob") 50))
unfolding text_eq ℕ_discrete is_empty
issue_token-verify_token_example =
    issue_token-verify_token padded (codes "acme") (codes "bob") (codes "k") 10 40 45
      payload_encoded signature_encoded refl refl (omega arith)

abbrev padding_config : AuthConfig
padding_config = record { library = padded; auth_signing_key = codes "k"; now = 40 }

abbrev issued : TokenOut
issued = record { access_token = codes "bob.kbob"; token_type = codes "bearer"; expires_in = 10 }

-- a token of ten seconds, a second too late
issue_access_token_bounds_example :
    (1 ≤ 10)
    × (10 ≤ 86400)
    × Asked (some (pos 10)) 10
    × (verify_token padded (codes "bob.kbob") (codes "k") 51 ≡ (
        if leb 51 (40 + 10)
        then valid (claims_for (codes "acme") (codes "bob") 50)
        else failed token_expired))
unfolding issue_access_token ttl_of check_ttl token_out issue_token b64encode rstrip_pad ◌>>=◌
    is_empty nat_eq ℕ_discrete text_eq replicate
issue_access_token_bounds_example =
    issue_access_token_bounds padding_config (some (pos 10)) bob bob_session bob_session issued 51
      payload_encoded signature_encoded refl refl
