-- ===== src/RateLimit/Retry.antt =====
-- The `retry-after` of a refusal.
use jarvis_ai_coo.Prelude.{
  ℕ, suc, ◌+◌, ◌-◌, ◌*◌, ◌/◌, ◌≤◌, ◌<◌, Text, ◌≡◌, refl, sym, subst, Bool, true, false, List, [],
  ◌∷◌, ◌++◌, length, leb, ◌==◌, text_eq, arith, if◌then◌else◌,
}
use native.Mathlib.Nat.{lt-mul-div-succ}
use jarvis_ai_coo.Database.{Env}
use jarvis_ai_coo.RateLimit.{
  SlidingWindowLimiter, events_of, put_events, evict, admit, check, wait_of, retry_after,
}
use jarvis_ai_coo.RateLimit.Window.{events_of-put}
use jarvis_ai_coo.RateLimit.Middleware.{Scope, identity_key, forwarded, limited, pass}

-- A limiter after some requests, each a scope and the two readings of the clock.
unfoldable pub passed :
    Env → ℕ → SlidingWindowLimiter → List (Scope × (ℕ × ℕ)) → SlidingWindowLimiter
passed env second limiter [] = limiter
passed env second limiter ((scope, (now, again)) ∷ rest) =
    passed env second (pass env second limiter scope now again).1 rest

-- No deque is longer than the limit, which stays.
record Bounded (limit window : ℕ) (limiter : SlidingWindowLimiter) : Type 0 where
  limit_is : limiter.limit ≡ limit
  window_is : limiter.window ≡ window
  short : (key : Text) → length (events_of key limiter.events) ≤ limit

length-evict : (window now : ℕ) (q : List ℕ) → length (evict window now q) ≤ length q
unfolding evict
length-evict window now [] = omega arith
length-evict window now (e ∷ q) = ground (arith, length-evict window now q)

length-snoc : (e : ℕ) (q : List ℕ) → length (q ++ e ∷ []) ≡ suc (length q)
length-snoc e [] = refl
length-snoc e (x ∷ q) = rw (length-snoc e q)

-- What stays of a deque once its oldest event has left the window is shorter.
evict-oldest :
    (window later e : ℕ) (q : List ℕ)
    → e + window ≤ later
    → length (evict window later (e ∷ q)) ≤ length q
unfolding evict
evict-oldest window later e q h = ground (arith, length-evict window later q)

length-admit :
    (limit window now : ℕ) (q : List ℕ)
    → length q ≤ limit
    → length (admit limit window now q).1 ≤ limit
unfolding admit
length-admit limit window now q h =
    ground (arith, length-evict window now q, length-snoc now (evict window now q))

check-Bounded :
    {limit window : ℕ} (limiter : SlidingWindowLimiter) (key : Text) (now : ℕ)
    → Bounded limit window limiter
    → Bounded limit window (check limiter key now).1
unfolding check
check-Bounded {limit} {window} limiter key now b = cases (leb limiter.limit 0)
  where
    q : Bool × List ℕ
    q = admit limiter.limit limiter.window now (events_of key limiter.events)

    short : (j : Text) → length (events_of j (put_events key q.1 limiter.events)) ≤ limit
    short j = rw (events_of-put key j q.1 limiter.events) (pick (key == j))
      where
        pick : (c : Bool) → length (if c then q.1 else events_of j limiter.events) ≤ limit
        pick true =
            subst (λ l. length q.1 ≤ l) b.limit_is
              (length-admit limiter.limit limiter.window now _ (
                subst (λ l. length (events_of key limiter.events) ≤ l) (sym b.limit_is)
                  (b.short key)))
        pick false = b.short j

    cases :
        (c : Bool)
        → Bounded limit window
            (if◌then◌else◌ {A = Bool × SlidingWindowLimiter} c
              (true, limiter)
              (q.0, record limiter { events = put_events key q.1 limiter.events })).1
    cases true = b
    cases false = record { limit_is = b.limit_is; window_is = b.window_is; short = short }

pass-Bounded :
    (env : Env) (second : ℕ) {limit window : ℕ} (limiter : SlidingWindowLimiter) (scope : Scope)
    (now again : ℕ)
    → Bounded limit window limiter
    → Bounded limit window (pass env second limiter scope now again).1
unfolding pass
pass-Bounded env second limiter scope now again b =
    ground (arith, check-Bounded limiter (identity_key env scope) now b)

passed-Bounded :
    (env : Env) (second limit window : ℕ) (limiter : SlidingWindowLimiter)
    (requests : List (Scope × (ℕ × ℕ)))
    → Bounded limit window limiter
    → Bounded limit window (passed env second limiter requests)
unfolding passed
passed-Bounded env second limit window limiter [] b = b
passed-Bounded env second limit window limiter ((scope, (now, again)) ∷ rest) b =
    passed-Bounded env second limit window (pass env second limiter scope now again).1 rest
      (pass-Bounded env second limiter scope now again b)

-- Once the wait is over, the oldest event has left the window.
waited :
    (second window again later e : ℕ) (q : List ℕ)
    → 0 < second
    → again + second * wait_of second window again (e ∷ q) ≤ later
    → e + window ≤ later
unfolding wait_of
waited second window again later e q pos h =
    let over : window + e - again < second * ((window + e - again) / second + 1) =
      lt-mul-div-succ (window + e - again) pos in
    let n : ℕ = (window + e - again) / second in ground arith

allowed_after :
    (second limit window again later : ℕ) (q : List ℕ)
    → 0 < second
    → 0 < limit
    → length q ≤ limit
    → again + second * wait_of second window again q ≤ later
    → (admit limit window later q).0 ≡ true
unfolding admit
allowed_after second limit window again later [] pos some_limit short h =
    ground (arith, length-evict window later [])
allowed_after second limit window again later (e ∷ q) pos some_limit short h =
    ground (arith, evict-oldest window later e q (waited second window again later e q pos h))

-- A refusal, on the limiter that it leaves.
check_again :
    (second limit window : ℕ) (limiter : SlidingWindowLimiter) (key : Text) (again later : ℕ)
    → 0 < second
    → 0 < limit
    → Bounded limit window limiter
    → again + second * retry_after second limiter key again ≤ later
    → (check limiter key later).0 ≡ true
unfolding check retry_after
check_again second limit window limiter key again later pos some_limit b h =
    let same_limit : limiter.limit ≡ limit = b.limit_is in
    let short : length (events_of key limiter.events) ≤ limiter.limit =
      subst (λ l. length (events_of key limiter.events) ≤ l) (sym same_limit) (b.short key) in
    let positive : 0 < limiter.limit = subst (λ l. 0 < l) (sym same_limit) some_limit in
    ground (
      arith,
      allowed_after second limiter.limit limiter.window again later (events_of key limiter.events)
          pos positive short h,
    )

limited-retry :
    (env : Env) (second : ℕ) (limiter : SlidingWindowLimiter) (scope : Scope) (now again retry : ℕ)
    → (pass env second limiter scope now again).0 ≡ limited retry
    → (0 < limiter.limit)
      × (retry
          ≡ retry_after second
              (pass env second limiter scope now again).1
              (identity_key env scope)
              again)
unfolding pass
limited-retry env second limiter scope now again retry h = ground arith

forwarded-check :
    (env : Env) (second : ℕ) (limiter : SlidingWindowLimiter) (scope : Scope) (later again : ℕ)
    → (check limiter (identity_key env scope) later).0 ≡ true
    → (pass env second limiter scope later again).0 ≡ forwarded
unfolding pass
forwarded-check env second limiter scope later again h = ground arith

-- On a limiter that has passed any requests: who is refused, and asks again with the same headers when
-- the seconds of `retry-after` are over, with no request of the limiter between, is forwarded.
pub limited-forwarded :
    (env : Env) (second limit window : ℕ) (requests : List (Scope × (ℕ × ℕ))) (scope : Scope)
    (now again retry later after : ℕ)
    → 0 < second
    → (pass env second
        (passed env second (record { limit = limit; window = window; events = [] }) requests)
        scope
        now
        again).0
      ≡ limited retry
    → again + second * retry ≤ later
    → (pass env second
        (pass env second
          (passed env second (record { limit = limit; window = window; events = [] }) requests)
          scope
          now
          again).1
        scope
        later
        after).0
      ≡ forwarded
unfolding events_of
limited-forwarded env second limit window requests scope now again retry later after pos refused h =
    let start : SlidingWindowLimiter = record { limit = limit; window = window; events = [] } in
    let fresh : Bounded limit window start = record {
      limit_is = refl;
      window_is = refl;
      short = λ key. omega arith;
    } in
    let before : SlidingWindowLimiter = passed env second start requests in
    let b : Bounded limit window before =
      passed-Bounded env second limit window start requests fresh in
    let next : Bounded limit window (pass env second before scope now again).1 =
      pass-Bounded env second before scope now again b in
    let (some_limit, is) = limited-retry env second before scope now again retry refused in
    let positive : 0 < limit = subst (λ l. 0 < l) b.limit_is some_limit in
    let enough : again
          + second
            * retry_after second (pass env second before scope now again).1 (identity_key env scope)
                again
        ≤ later =
      subst (λ r. again + second * r ≤ later) is h in
    forwarded-check env second _ scope later after (
      check_again second limit window _ (identity_key env scope) again later pos positive next
        enough)
