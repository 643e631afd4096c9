-- ===== src/RateLimit/Window.antt =====
-- The limiter over a run of requests, against a limiter that keeps the log of all that it admitted.
use jarvis_ai_coo.Prelude.{
  ℕ, ◌≤◌, ◌<◌, Text, ◌≡◌, refl, sym, ap, ◌∙◌, subst, Bool, true, false, List, [], ◌∷◌, ◌++◌, length,
  where_, leb, ◌==◌, text_eq, arith, if◌then◌else◌, Bool-cases, inl, inr,
}
use jarvis_ai_coo.RateLimit.{SlidingWindowLimiter, events_of, put_events, evict, check}
use jarvis_ai_coo.RateLimit.Queue.{
  is_live, IsOrdered, Until, evict-eq-where, where-where, where-append, where-IsOrdered,
  snoc-IsOrdered, snoc-Until, where-Until, Until-mono,
}

-- The answers to a run of requests, each a key and a time.
unfoldable pub answers : SlidingWindowLimiter → List (Text × ℕ) → List Bool
answers limiter [] = []
answers limiter ((key, now) ∷ rest) =
    let (allowed, next) = check limiter key now in allowed ∷ answers next rest

-- The times of a key in the log of the admitted requests.
unfoldable pub times_of : Text → List (Text × ℕ) → List ℕ
times_of key [] = []
times_of key ((k, t) ∷ log) = let rest = times_of key log in if k == key then t ∷ rest else rest

-- A request is admitted exactly while fewer than `limit` admitted requests of its key are younger
-- than the window.
unfoldable pub window_answers : ℕ → ℕ → List (Text × ℕ) → List (Text × ℕ) → List Bool
window_answers limit window log [] = []
window_answers limit window log ((key, now) ∷ rest) =
    let full = leb limit (length (where_ (is_live window now) (times_of key log))) in
    let refused = window_answers limit window log rest in
    let admitted = window_answers limit window (log ++ (key, now) ∷ []) rest in
    if full then false ∷ refused else true ∷ admitted

-- The times of the run do not fall, from `low` on.
abbrev pub InOrder : ℕ → List (Text × ℕ) → Type 0
InOrder low [] = Unit
InOrder low ((_, t) ∷ rest) = (low ≤ t) × InOrder t rest

-- A deque that stands for a log: at no later time do they differ.
record Stands (window now : ℕ) (q h : List ℕ) : Type 0 where
  ordered : IsOrdered 0 q
  past : Until now q
  alike :
      (later : ℕ) → now ≤ later → where_ (is_live window later) q ≡ where_ (is_live window later) h

Stands-later :
    {window now later : ℕ} {q h : List ℕ}
    → now ≤ later
    → Stands window now q h
    → Stands window later q h
Stands-later {window} {now} {later} {q} l s = record {
  ordered = s.ordered;
  past = Until-mono now later q l s.past;
  alike = λ t k. s.alike t (omega arith);
}

same_key : {a b : Text} → (a == b) ≡ true → a ≡ b
same_key h = ground arith

pub events_of-put :
    (key j : Text) (q : List ℕ) (events : List (Text × List ℕ))
    → events_of j (put_events key q events) ≡ (if key == j then q else events_of j events)
unfolding events_of put_events
events_of-put key j q [] = refl
events_of-put key j q ((k, p) ∷ rest) = ground (arith, events_of-put key j q rest)

times_of-append :
    (key j : Text) (now : ℕ) (log : List (Text × ℕ))
    → times_of j (log ++ (key, now) ∷ [])
      ≡ (if key == j then times_of j log ++ now ∷ [] else times_of j log)
unfolding times_of
times_of-append key j now [] = refl
times_of-append key j now ((k, t) ∷ log) = ground (arith, times_of-append key j now log)

module _ (limit window : ℕ) where
  -- what `admit` leaves when it refuses, and when it admits
  kept : {now : ℕ} {q h : List ℕ} → Stands window now q h → Stands window now (evict window now q) h
  kept {now} {q} s =
      let e = evict-eq-where window now 0 q s.ordered in
      record {
        ordered = subst (IsOrdered 0) (sym e) (where-IsOrdered (is_live window now) 0 q s.ordered);
        past = subst (Until now) (sym e) (where-Until (is_live window now) now q s.past);
        alike = λ later l.
            ap (where_ (is_live window later)) e
            ∙ (where-where window now later q l ∙ s.alike later l);
      }

  joined :
      {now : ℕ} {q h : List ℕ}
      → Stands window now q h
      → Stands window now (q ++ now ∷ []) (h ++ now ∷ [])
  joined {now} {q} {h} s = record {
    ordered = snoc-IsOrdered 0 now q s.ordered s.past (omega arith);
    past = snoc-Until now q s.past;
    alike = λ later l.
        where-append (is_live window later) q (now ∷ [])
        ∙ (ap (λ r. r ++ where_ (is_live window later) (now ∷ [])) (s.alike later l)
            ∙ sym (where-append (is_live window later) h (now ∷ [])));
  }

  -- the number that `check` compares is the number of the log's events in the window
  same_count :
      {now : ℕ} {q h : List ℕ}
      → Stands window now q h
      → length (evict window now q) ≡ length (where_ (is_live window now) h)
  same_count {now} {q} s =
      ap length (evict-eq-where window now 0 q s.ordered ∙ s.alike now (omega arith))

  StandsAll : ℕ → List (Text × List ℕ) → List (Text × ℕ) → Type 0
  StandsAll now events log =
      (key : Text) → Stands window now (events_of key events) (times_of key log)

  -- One key's deque and log are replaced, the others' only grow older.
  replaced :
      (now : ℕ) (key : Text) (q h : List ℕ) (events : List (Text × List ℕ))
      (log log' : List (Text × ℕ))
      → StandsAll now events log
      → Stands window now q h
      → ((j : Text) → times_of j log' ≡ (if key == j then h else times_of j log))
      → StandsAll now (put_events key q events) log'
  unfolding StandsAll
  replaced now key q h events log log' st new is j =
      rw (events_of-put key j q events, is j) (cases (key == j))
    where
      cases :
          (b : Bool)
          → Stands window now
              (if b then q else events_of j events)
              (if b then h else times_of j log)
      cases true = new
      cases false = st j

  same_log :
      (key j : Text) (log : List (Text × ℕ))
      → times_of j log ≡ (if key == j then times_of key log else times_of j log)
  same_log key j log = elim (Bool-cases (key == j)) [
    | inl hit ↦ rw hit (subst (λ i. times_of j log ≡ times_of i log) (sym (same_key hit)) refl)
    | inr miss ↦ rw miss
  ]

  same_end :
      (key j : Text) (now : ℕ) (log : List (Text × ℕ))
      → times_of j (log ++ (key, now) ∷ [])
        ≡ (if key == j then times_of key log ++ now ∷ [] else times_of j log)
  same_end key j now log = elim (Bool-cases (key == j)) [
    | inl hit ↦ rw hit (
        subst (λ i. times_of j (log ++ (key, now) ∷ []) ≡ times_of i log ++ now ∷ [])
          (sym (same_key hit)) (rw hit at (times_of-append key j now log)))
    | inr miss ↦ rw miss (rw miss at (times_of-append key j now log))
  ]

  run :
      (low : ℕ) (events : List (Text × List ℕ)) (log requests : List (Text × ℕ))
      → 0 < limit
      → InOrder low requests
      → StandsAll low events log
      → answers (record { limit = limit; window = window; events = events }) requests
        ≡ window_answers limit window log requests
  unfolding answers window_answers check StandsAll
  run low events log [] pos o st = refl
  run low events log ((key, now) ∷ rest) pos o st = ground (
    arith,
    same_count here,
    run now (put_events key live events) log rest pos o.1 (
        replaced now key live (times_of key log) events log log aged (kept here)
          (λ j. same_log key j log)),
    run now (put_events key (live ++ now ∷ []) events) (log ++ (key, now) ∷ []) rest pos o.1 (
        replaced now key (live ++ now ∷ []) (times_of key log ++ now ∷ []) events log _ aged
          (joined (kept here)) (λ j. same_end key j now log)),
  )
    where
      live : List ℕ
      live = evict window now (events_of key events)

      aged : StandsAll now events log
      aged j = Stands-later o.0 (st j)

      here : Stands window now (events_of key events) (times_of key log)
      here = aged key

-- On a new limiter with a positive limit, over requests of any keys whose times do not fall: each
-- request is admitted exactly while fewer than `limit` of the requests of its own key that were
-- admitted are younger than the window, although `check` forgets the older ones.
pub answers-eq-window_answers :
    (limit window : ℕ) (requests : List (Text × ℕ))
    → 0 < limit
    → InOrder 0 requests
    → answers (record { limit = limit; window = window; events = [] }) requests
      ≡ window_answers limit window [] requests
unfolding events_of times_of StandsAll
answers-eq-window_answers limit window requests pos o =
    run limit window 0 [] [] requests pos o
      (λ key. record { ordered = tt; past = tt; alike = λ later l. refl })
