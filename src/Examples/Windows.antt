-- ===== src/Examples/Windows.antt =====
-- Runs of the limiter.
use native.Mathlib.Decide.{ℕ_discrete}
use jarvis_ai_coo.Prelude.{
  Text, codes, ◌≡◌, refl, true, false, List, [], ◌∷◌, ℕ, none, text_eq, arith,
}
use jarvis_ai_coo.RateLimit.{
  SlidingWindowLimiter, check, admit, evict, events_of, put_events, retry_after, wait_of,
}
use jarvis_ai_coo.Strings.{is_empty}
use jarvis_ai_coo.RateLimit.Middleware.{Scope, header, last_header, identity_key, forwarded, pass}
use jarvis_ai_coo.RateLimit.Retry.{passed, limited-forwarded}
use jarvis_ai_coo.Examples.Data.{env}
use jarvis_ai_coo.RateLimit.Window.{answers, window_answers, answers-eq-window_answers}

abbrev traffic : List (Text × ℕ)
traffic =
    (codes "a", 0)
    ∷ (codes "a", 4)
    ∷ (codes "b", 5)
    ∷ (codes "a", 9)
    ∷ (codes "a", 10)
    ∷ (codes "a", 13)
    ∷ (codes "a", 14)
    ∷ []

-- two requests in ten ticks
answers_of_traffic :
    answers (record { limit = 2; window = 10; events = [] }) traffic
    ≡ true ∷ true ∷ true ∷ false ∷ true ∷ false ∷ true ∷ []
unfolding answers check text_eq ℕ_discrete
answers_of_traffic = refl

answers-eq-window_answers_example :
    answers (record { limit = 2; window = 10; events = [] }) traffic
    ≡ window_answers 2 10 [] traffic
answers-eq-window_answers_example =
    answers-eq-window_answers 2 10 traffic (omega arith) (omega arith)

abbrev scope : Scope
scope = record {
  is_http = true;
  headers = (codes "x-organization-id", codes "acme") ∷ (codes "x-user-id", codes "bob") ∷ [];
  client = none;
}

-- one request in ten ticks, of which five are a second
abbrev start : SlidingWindowLimiter
start = record { limit = 1; window = 10; events = [] }

limited-forwarded_example :
    (pass env 5 (pass env 5 (passed env 5 start ((scope, (0, 0)) ∷ [])) scope 3 3).1 scope 13 13).0
    ≡ forwarded
unfolding passed pass identity_key header last_header is_empty check admit evict events_of
    put_events retry_after wait_of text_eq ℕ_discrete
limited-forwarded_example =
    limited-forwarded env 5 1 10 ((scope, (0, 0)) ∷ []) scope 3 3 2 13 13 (omega arith) refl
      (omega arith)
