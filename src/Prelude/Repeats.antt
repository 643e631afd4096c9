-- ===== src/Prelude/Repeats.antt =====
-- Lists of texts, as sets: which texts they contain, and how many.
use Prim.Native.Nat.{◌≤◌, ◌<◌}
use mathlib.Core.Path.{◌≡◌, refl}
use mathlib.Core.Bool.{Bool, true, false, not, ◌&&◌, ◌||◌}
use mathlib.Core.List.{List, [], ◌∷◌, ◌++◌}
use native.Mathlib.Omega.{arith}
use jarvis_ai_coo.Prelude.Equality.{Text, text_eq, ◌==◌, contains}
use jarvis_ai_coo.Prelude.Lists.{length, where_}

-- No text stands twice.
abbrev pub Distinct : List Text → Type 0
Distinct [] = Unit
Distinct (t ∷ ts) = (contains ts t ≡ false) × Distinct ts

pub contains-append :
    (t : Text) (ts us : List Text) → contains (ts ++ us) t ≡ (contains ts t || contains us t)
contains-append t [] us = refl
contains-append t (u ∷ ts) us = ground (arith, contains-append t ts us)

pub append-Distinct :
    (t : Text) (ts : List Text) → contains ts t ≡ false → Distinct ts → Distinct (ts ++ t ∷ [])
append-Distinct t [] h d = (refl, tt)
append-Distinct t (u ∷ ts) h d =
    (rw (contains-append u ts (t ∷ [])) (ground arith), append-Distinct t ts (ground arith) d.1)

pub contains-where :
    (p : Text → Bool) (u : Text) (ts : List Text)
    → contains (where_ p ts) u ≡ (contains ts u && p u)
unfolding where_
contains-where p u [] = refl
contains-where p u (t ∷ ts) = ground (arith, contains-where p u ts)

-- the list without one text
without : Text → List Text → List Text
unfolding where_
without t ts = where_ (λ u. not (t == u)) ts

contains-without :
    (t u : Text) (ts : List Text) → contains (without t ts) u ≡ (contains ts u && not (t == u))
unfolding without
contains-without t u ts = contains-where (λ s. not (t == s)) u ts

length-without : (t : Text) (ts : List Text) → length (without t ts) ≤ length ts
unfolding without
length-without t [] = omega arith
length-without t (s ∷ ts) = ground (arith, length-without t ts)

length-without_lt :
    (t : Text) (ts : List Text) → contains ts t ≡ true → length (without t ts) < length ts
unfolding without
length-without_lt t [] h = cc
length-without_lt t (s ∷ ts) h = ground (arith, length-without_lt t ts, length-without t ts)

subset_rest :
    (t : Text) (ts us : List Text)
    → contains ts t ≡ false
    → ((u : Text) → contains (t ∷ ts) u ≡ true → contains us u ≡ true)
    → (u : Text) → contains ts u ≡ true
    → contains (without t us) u ≡ true
subset_rest t ts us h sub u m = rw (contains-without t u us) (ground (arith, sub u))

-- Distinct texts of a list are not more than the list has.
pub length-Distinct :
    (ts us : List Text)
    → Distinct ts
    → ((u : Text) → contains ts u ≡ true → contains us u ≡ true)
    → length ts ≤ length us
length-Distinct [] us d sub = omega arith
length-Distinct (t ∷ ts) us d sub =
    let below : length ts ≤ length (without t us) =
      length-Distinct ts (without t us) d.1 (subset_rest t ts us d.0 sub) in
    let here : contains us t ≡ true = sub t (ground arith) in
    let less : length (without t us) < length us = length-without_lt t us here in omega arith
