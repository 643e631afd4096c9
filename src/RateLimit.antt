-- ===== src/RateLimit.antt =====
-- app/ratelimit.py: the sliding-window limiter. A time is a number of
-- ticks of one clock, so that the floats of the source are exact. `limit` is a natural number: the
-- source treats a negative one as 0.
pub mod Window
pub mod Middleware
pub mod Retry
pub mod Queue
use jarvis_ai_coo.Prelude.{
  ℕ, zero, suc, ◌+◌, ◌-◌, ◌/◌, ◌≤◌, ◌<◌, Text, ◌≡◌, Bool, true, false, List, [], ◌∷◌, ◌++◌, length,
  leb, ltb, ◌==◌, text_eq, if◌then◌else◌,
}

-- `SlidingWindowLimiter`: its fields, `_events` as an association list
pub record SlidingWindowLimiter : Type 0 where
  pub limit : ℕ
  pub window : ℕ
  pub events : List (Text × List ℕ)

-- `self._events[key]` of a `defaultdict(deque)`
unfoldable pub events_of : Text → List (Text × List ℕ) → List ℕ
events_of key [] = []
events_of key ((k, q) ∷ rest) = if k == key then q else events_of key rest

unfoldable pub put_events : Text → List ℕ → List (Text × List ℕ) → List (Text × List ℕ)
put_events key q [] = (key, q) ∷ []
put_events key q ((k, p) ∷ rest) =
    if k == key then (k, q) ∷ rest else (k, p) ∷ put_events key q rest

-- `while events and events[0] <= cutoff: events.popleft()`, with `cutoff = now - window`
unfoldable pub evict : ℕ → ℕ → List ℕ → List ℕ
evict window now [] = []
evict window now (e ∷ q) =
    let rest = evict window now q in if leb (e + window) now then rest else e ∷ q

-- The rest of `check`, on the deque of the key.
unfoldable pub admit : ℕ → ℕ → ℕ → List ℕ → Bool × List ℕ
unfolding evict
admit limit window now q =
    let live = evict window now q in
    if leb limit (length live) then (false, live) else (true, live ++ (now ∷ []))

-- `check`
unfoldable pub check : SlidingWindowLimiter → Text → ℕ → Bool × SlidingWindowLimiter
unfolding admit events_of put_events
check limiter key now =
    if leb limiter.limit 0
    then (true, limiter)
    else (let (allowed, q) =
          admit limiter.limit limiter.window now (events_of key limiter.events) in
        (allowed, record limiter { events = put_events key q limiter.events }))

-- `max(1, int(window - elapsed) + 1)`, in seconds of `second` ticks; `int` cuts off towards zero, so
-- that an elapsed time beyond the window gives at most 1
unfoldable pub wait_of : ℕ → ℕ → ℕ → List ℕ → ℕ
wait_of second window now [] = 1
wait_of second window now (e ∷ q) =
    let left = (window + e - now) / second + 1 in if leb 1 left then left else 1

-- `retry_after`
unfoldable pub retry_after : ℕ → SlidingWindowLimiter → Text → ℕ → ℕ
unfolding wait_of events_of
retry_after second limiter key now =
    wait_of second limiter.window now (events_of key limiter.events)
