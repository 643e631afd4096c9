-- ===== src/RateLimit/Queue.antt =====
-- The deque of one key against the log of all admitted events.
use jarvis_ai_coo.Prelude.{
  ℕ, ◌+◌, ◌≤◌, ◌<◌, ◌≡◌, refl, Bool, List, [], ◌∷◌, ◌++◌, where_, ltb, arith,
}
use jarvis_ai_coo.RateLimit.{evict}

-- An event counts at a time while it is younger than the window.
abbrev pub is_live : ℕ → ℕ → ℕ → Bool
is_live window now e = ltb now (e + window)

-- No event of the list is before `low`, and they are in order of time.
abbrev pub IsOrdered : ℕ → List ℕ → Type 0
IsOrdered low [] = Unit
IsOrdered low (e ∷ q) = (low ≤ e) × IsOrdered e q

all_live :
    (window now low : ℕ) (q : List ℕ)
    → IsOrdered low q
    → now < low + window
    → where_ (is_live window now) q ≡ q
unfolding where_
all_live window now low [] o h = refl
all_live window now low (e ∷ q) o h = ground (arith, all_live window now e q o.1)

-- On a deque in order the loop drops exactly the events that have left the window.
pub evict-eq-where :
    (window now low : ℕ) (q : List ℕ)
    → IsOrdered low q
    → evict window now q ≡ where_ (is_live window now) q
unfolding evict where_
evict-eq-where window now low [] o = refl
evict-eq-where window now low (e ∷ q) o =
    ground (arith, evict-eq-where window now e q o.1, all_live window now e q o.1)

pub where-where :
    (window now later : ℕ) (q : List ℕ)
    → now ≤ later
    → where_ (is_live window later) (where_ (is_live window now) q)
      ≡ where_ (is_live window later) q
unfolding where_
where-where window now later [] h = refl
where-where window now later (e ∷ q) h = ground (arith, where-where window now later q h)

pub where-append :
    (p : ℕ → Bool) (xs ys : List ℕ) → where_ p (xs ++ ys) ≡ where_ p xs ++ where_ p ys
unfolding where_
where-append p [] ys = refl
where-append p (x ∷ xs) ys = ground (arith, where-append p xs ys)

pub where-IsOrdered :
    (p : ℕ → Bool) (low : ℕ) (q : List ℕ) → IsOrdered low q → IsOrdered low (where_ p q)
unfolding where_
where-IsOrdered p low [] o = tt
where-IsOrdered p low (e ∷ q) o =
    ground (arith, where-IsOrdered p e q o.1, lower low e (where_ p q))
  where
    lower : (a b : ℕ) (l : List ℕ) → IsOrdered b l → a ≤ b → IsOrdered a l
    lower a b [] h k = tt
    lower a b (x ∷ l) h k = ground arith

-- every event is at or before `now`
abbrev pub Until : ℕ → List ℕ → Type 0
Until now [] = Unit
Until now (e ∷ q) = (e ≤ now) × Until now q

pub snoc-IsOrdered :
    (low now : ℕ) (q : List ℕ)
    → IsOrdered low q
    → Until now q
    → low ≤ now
    → IsOrdered low (q ++ now ∷ [])
snoc-IsOrdered low now [] o u h = (h, tt)
snoc-IsOrdered low now (e ∷ q) o u h = (o.0, snoc-IsOrdered e now q o.1 u.1 u.0)

pub snoc-Until : (now : ℕ) (q : List ℕ) → Until now q → Until now (q ++ now ∷ [])
snoc-Until now [] u = ground arith
snoc-Until now (e ∷ q) u = (u.0, snoc-Until now q u.1)

pub where-Until : (p : ℕ → Bool) (now : ℕ) (q : List ℕ) → Until now q → Until now (where_ p q)
unfolding where_
where-Until p now [] u = tt
where-Until p now (e ∷ q) u = ground (arith, where-Until p now q u.1)

pub Until-mono : (now later : ℕ) (q : List ℕ) → now ≤ later → Until now q → Until later q
Until-mono now later [] h u = tt
Until-mono now later (e ∷ q) h u = (omega arith, Until-mono now later q h u.1)
