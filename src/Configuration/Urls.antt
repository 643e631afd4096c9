-- ===== src/Configuration/Urls.antt =====
-- What a resolved database URL tells of the settings.
use jarvis_ai_coo.Prelude.{
  ℕ, Text, codes, ◌≡◌, refl, sym, ap, ◌∙◌, Bool, true, false, ◌||◌, nat_eq, none, some, [], ◌∷◌,
  ◌++◌, contains, arith, if◌then◌else◌,
}
use jarvis_ai_coo.Strings.{is_empty}
use jarvis_ai_coo.Json.{decimal}
use jarvis_ai_coo.Configuration.{Settings, resolved_database_url}

tails : {x y : ℕ} {s t : Text} → x ∷ s ≡ y ∷ t → s ≡ t
tails e = ground arith

-- two texts up to the first of a character
up_to :
    (c : ℕ) (s t r r' : Text)
    → contains s c ≡ false
    → contains t c ≡ false
    → s ++ c ∷ r ≡ t ++ c ∷ r'
    → (s ≡ t) × (r ≡ r')
up_to c [] [] r r' hs ht e = (refl, tails e)
up_to c [] (y ∷ t) r r' hs ht e = absurd (ground arith)
up_to c (x ∷ s) [] r r' hs ht e = absurd (ground arith)
up_to c (x ∷ s) (y ∷ t) r r' hs ht e =
    let (same, rest) = up_to c s t r r' (ground arith) (ground arith) (tails e) in
    let first : x ≡ y = ground arith in (ap (λ z. z ∷ s) first ∙ ap (λ u. y ∷ u) same, rest)

-- The user has no colon, the password no `@`, and the host no colon.
pub record IsPlain (settings : Settings) : Type 0 where
  pub user : contains settings.postgres_user b':' ≡ false
  pub password : contains settings.postgres_password b'@' ≡ false
  pub host : contains settings.postgres_host b':' ≡ false

from_user : Settings → Text
from_user s =
    s.postgres_user
    ++ b':'
      ∷ (s.postgres_password
          ++ b'@' ∷ (s.postgres_host ++ b':' ∷ (decimal s.postgres_port ++ b'/' ∷ s.postgres_db)))

same_prefix : (p s t : Text) → p ++ s ≡ p ++ t → s ≡ t
same_prefix [] s t e = e
same_prefix (c ∷ p) s t e = same_prefix p s t (tails e)

from_parts :
    (s : Settings) (url : Text)
    → s.database_url ≡ []
    → resolved_database_url s ≡ some url
    → codes "postgresql+asyncpg://" ++ from_user s ≡ url
unfolding resolved_database_url from_user
from_parts s url none_given h =
    by_credentials (is_empty s.postgres_user || is_empty s.postgres_password) (rw none_given at h)
  where
    by_credentials :
        (b : Bool)
        → (if b then none else some (codes "postgresql+asyncpg://" ++ from_user s)) ≡ some url
        → codes "postgresql+asyncpg://" ++ from_user s ≡ url
    by_credentials true h = cc
    by_credentials false h = ground arith

-- Two settings without a `DATABASE_URL` that resolve to one URL have the same user, password and host,
-- if no user and no host has a colon and no password an `@`.
pub resolved_database_url-names :
    (s t : Settings) (url : Text)
    → s.database_url ≡ []
    → t.database_url ≡ []
    → IsPlain s
    → IsPlain t
    → resolved_database_url s ≡ some url
    → resolved_database_url t ≡ some url
    → (s.postgres_user ≡ t.postgres_user)
      × (s.postgres_password ≡ t.postgres_password)
      × (s.postgres_host ≡ t.postgres_host)
unfolding from_user
resolved_database_url-names s t url no_url no_url' p q h k =
    let both : from_user s ≡ from_user t =
      same_prefix (codes "postgresql+asyncpg://") (from_user s) (from_user t)
        (from_parts s url no_url h ∙ sym (from_parts t url no_url' k)) in
    let (user, after_user) = up_to b':' s.postgres_user t.postgres_user _ _ p.user q.user both in
    let (password, after_password) =
      up_to b'@' s.postgres_password t.postgres_password _ _ p.password q.password after_user in
    let (host, _) = up_to b':' s.postgres_host t.postgres_host _ _ p.host q.host after_password in
    (user, password, host)
