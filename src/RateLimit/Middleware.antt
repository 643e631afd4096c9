-- ===== src/RateLimit/Middleware.antt =====
-- `identity_key` and `RateLimitMiddleware` of app/ratelimit.py.
use jarvis_ai_coo.Prelude.{
  ℕ, Text, codes, Bool, not, ◌&&◌, ◌||◌, ◌==◌, text_eq, Option, none, some, List, [], ◌∷◌, ◌++◌,
  leb, if◌then◌else◌,
}
use jarvis_ai_coo.Strings.{is_empty}
use jarvis_ai_coo.Database.{Env}
use jarvis_ai_coo.RateLimit.{SlidingWindowLimiter, check, retry_after}

-- What the middleware reads of the ASGI scope; `latin-1` decodes a byte to the code point of its number.
pub record Scope : Type 0 where
  pub is_http : Bool
  pub headers : List (Text × Text)
  pub client : Option Text

-- `raw.get(name, "")`: of headers with one lower-case name, the last
abbrev or_else : Text → Option Text → Text
or_else value none = value
or_else value (some later) = later

unfoldable pub last_header : Env → Text → List (Text × Text) → Option Text
last_header env name [] = none
last_header env name ((k, v) ∷ headers) =
    let later = last_header env name headers in
    if env.lower k == name then some (or_else v later) else later

unfoldable pub header : Env → Text → List (Text × Text) → Text
unfolding last_header
header env name headers = or_else [] (last_header env name headers)

abbrev client_key : Option Text → Text
client_key none = codes "unknown"
client_key (some host) = host

-- `identity_key`
unfoldable pub identity_key : Env → Scope → Text
unfolding header
identity_key env scope =
    let org = header env (codes "x-organization-id") scope.headers in
    let user = header env (codes "x-user-id") scope.headers in
    if not (is_empty org) && not (is_empty user)
    then org ++ b':' ∷ user
    else client_key scope.client

-- The request goes on to the application, or is answered with 429 and a `retry-after`.
pub data Passage : Type 0 where
  forwarded : Passage
  limited : ℕ → Passage

-- `__call__`, with the readings of the clock by `check` and by `retry_after`
unfoldable pub pass :
    Env → ℕ → SlidingWindowLimiter → Scope → ℕ → ℕ → Passage × SlidingWindowLimiter
unfolding identity_key
pass env second limiter scope now again =
    if not scope.is_http || leb limiter.limit 0
    then (forwarded, limiter)
    else (let key = identity_key env scope in
        let (allowed, next) = check limiter key now in
        (if allowed then forwarded else limited (retry_after second next key again), next))
