-- ===== src/Patterns/Runs.antt =====
-- What a match is, apart from how it is searched for.
use jarvis_ai_coo.Prelude.{
  ℕ, Text, ◌≡◌, refl, sym, subst, Bool, true, not, Option, none, some, List, [], ◌∷◌, ◌++◌, In,
  In-append, ◌↔◌, inl, inr, arith, Bool-cases,
}
use jarvis_ai_coo.Strings.{is_empty}
use jarvis_ai_coo.Patterns.Expressions.{
  Class, Regex, empty, boundary, one, many, seq, alt, Cursor, at, join_map, accepts, at_boundary,
  runs_of, one_of, ends, found_from, search_in,
}

module _ (is_alnum : ℕ → Bool) where
  -- A match of the expression from one position to another.
  pub data Runs : Regex → Cursor → Cursor → Type 0 where
    stay : {p : Cursor} → Runs empty p p
    edge :
        {b : Option ℕ} {s : Text}
        → at_boundary is_alnum b s ≡ true
        → Runs boundary (at b s) (at b s)
    take_one :
        {c : Class} {b : Option ℕ} {x : ℕ} {s : Text}
        → accepts is_alnum c x ≡ true
        → Runs (one c) (at b (x ∷ s)) (at (some x) s)
    stop : {c : Class} {p : Cursor} → Runs (many c) p p
    more :
        {c : Class} {b : Option ℕ} {x : ℕ} {s : Text} {q : Cursor}
        → accepts is_alnum c x ≡ true
        → Runs (many c) (at (some x) s) q
        → Runs (many c) (at b (x ∷ s)) q
    then_run : {r r' : Regex} {p m q : Cursor} → Runs r p m → Runs r' m q → Runs (seq r r') p q
    left : {r r' : Regex} {p q : Cursor} → Runs r p q → Runs (alt r r') p q
    right : {r r' : Regex} {p q : Cursor} → Runs r' p q → Runs (alt r r') p q

  -- A match somewhere in a text that stands behind a character.
  pub data FoundFrom : Regex → Option ℕ → Text → Type 0 where
    here : {r : Regex} {b : Option ℕ} {s : Text} {q : Cursor} → Runs r (at b s) q → FoundFrom r b s
    later :
        {r : Regex} {b : Option ℕ} {x : ℕ} {s : Text}
        → FoundFrom r (some x) s
        → FoundFrom r b (x ∷ s)

  abbrev pub Found : Regex → Text → Type 0
  Found r s = FoundFrom r none s

In-left : {A : Type 0} (x : A) (xs ys : List A) → In x xs → In x (xs ++ ys)
In-left x [] ys h = elim h [ ]
In-left x (y ∷ xs) ys h = ground (arith, In-left x xs ys)

In-right : {A : Type 0} (x : A) (xs ys : List A) → In x ys → In x (xs ++ ys)
In-right x [] ys h = h
In-right x (y ∷ xs) ys h = inr (In-right x xs ys h)

join_map-In :
    {A : Type 0} (f : A → List A) (x y : A) (xs : List A)
    → In x xs
    → In y (f x)
    → In y (join_map f xs)
join_map-In f x y [] h k = elim h [ ]
join_map-In f x y (z ∷ xs) (inl e) k = In-left y (f z) _ (subst (λ w. In y (f w)) e k)
join_map-In f x y (z ∷ xs) (inr h) k = In-right y (f z) _ (join_map-In f x y xs h k)

In-join_map :
    {A : Type 0} (f : A → List A) (y : A) (xs : List A)
    → In y (join_map f xs)
    → (x : A) × In x xs × In y (f x)
In-join_map f y [] h = elim h [ ]
In-join_map f y (z ∷ xs) h = elim (In-append y (f z) (join_map f xs) h) [
  | inl k ↦ (z, inl refl, k)
  | inr k ↦ let (x, m, l) = In-join_map f y xs k in (x, inr m, l)
]

only : {A : Type 0} (x y : A) → In x (y ∷ []) → x ≡ y
only x y (inl e) = e
only x y (inr h) = elim h [ ]

module _ (is_alnum : ℕ → Bool) where
  runs_of-Runs :
      (c : Class) (b : Option ℕ) (s : Text) (q : Cursor)
      → In q (runs_of is_alnum c b s)
      → Runs is_alnum (many c) (at b s) q
  unfolding runs_of
  runs_of-Runs c b [] q h = subst (Runs is_alnum (many c) (at b [])) (sym (only q _ h)) stop
  runs_of-Runs c b (x ∷ s) q (inl e) = subst (Runs is_alnum (many c) (at b (x ∷ s))) (sym e) stop
  runs_of-Runs c b (x ∷ s) q (inr h) = elim (Bool-cases (accepts is_alnum c x)) [
    | inl good ↦ more good (runs_of-Runs c (some x) s q (rw good at h))
    | inr off ↦ absurd (rw off at h)
  ]

  -- every end that the search computes is the end of a match
  ends-Runs : (r : Regex) (p q : Cursor) → In q (ends is_alnum r p) → Runs is_alnum r p q
  unfolding ends one_of runs_of
  ends-Runs empty p q h = subst (Runs is_alnum empty p) (sym (only q p h)) stay
  ends-Runs boundary (at b s) q h = elim (Bool-cases (at_boundary is_alnum b s)) [
    | inl good ↦ subst (Runs is_alnum boundary (at b s)) (sym (only q _ (rw good at h))) (edge good)
    | inr off ↦ absurd (rw off at h)
  ]
  ends-Runs (one c) (at b []) q h = elim h [ ]
  ends-Runs (one c) (at b (x ∷ s)) q h = elim (Bool-cases (accepts is_alnum c x)) [
    | inl good ↦
        subst (Runs is_alnum (one c) (at b (x ∷ s))) (sym (only q _ (rw good at h))) (take_one good)
    | inr off ↦ absurd (rw off at h)
  ]
  ends-Runs (many c) (at b s) q h = runs_of-Runs c b s q h
  ends-Runs (seq r r') p q h =
      let (m, hm, hq) = In-join_map (ends is_alnum r') q (ends is_alnum r p) h in
      then_run (ends-Runs r p m hm) (ends-Runs r' m q hq)
  ends-Runs (alt r r') p q h = elim (In-append q (ends is_alnum r p) (ends is_alnum r' p) h) [
    | inl k ↦ left (ends-Runs r p q k)
    | inr k ↦ right (ends-Runs r' p q k)
  ]

  Runs-ends : {r : Regex} {p q : Cursor} → Runs is_alnum r p q → In q (ends is_alnum r p)
  unfolding ends one_of runs_of
  Runs-ends stay = inl refl
  Runs-ends (edge ok) = rw ok (inl refl)
  Runs-ends (take_one ok) = rw ok (inl refl)
  Runs-ends (stop {p = at b []}) = inl refl
  Runs-ends (stop {p = at b (x ∷ s)}) = inl refl
  Runs-ends (more ok d) = inr (rw ok (Runs-ends d))
  Runs-ends (then_run d e) = join_map-In _ _ _ _ (Runs-ends d) (Runs-ends e)
  Runs-ends (left d) = In-left _ _ _ (Runs-ends d)
  Runs-ends (right d) = In-right _ _ _ (Runs-ends d)

  some_end : (ps : List Cursor) → not (is_empty ps) ≡ true → (q : Cursor) × In q ps
  unfolding is_empty
  some_end [] h = cc
  some_end (q ∷ ps) h = (q, inl refl)

  found_end : (ps : List Cursor) (q : Cursor) → In q ps → not (is_empty ps) ≡ true
  unfolding is_empty
  found_end [] q h = elim h [ ]
  found_end (p ∷ ps) q h = refl

  matched :
      (r : Regex) (p : Cursor)
      → not (is_empty (ends is_alnum r p)) ≡ true
      → (q : Cursor) × Runs is_alnum r p q
  matched r p h = let (q, m) = some_end (ends is_alnum r p) h in (q, ends-Runs r p q m)

  found_from-FoundFrom :
      (r : Regex) (b : Option ℕ) (s : Text)
      → found_from is_alnum r b s ≡ true
      → FoundFrom is_alnum r b s
  unfolding found_from
  found_from-FoundFrom r b [] h = here (matched r (at b []) h).1
  found_from-FoundFrom r b (x ∷ s) h =
      elim (Bool-cases (not (is_empty (ends is_alnum r (at b (x ∷ s)))))) [
        | inl yes_here ↦ here (matched r (at b (x ∷ s)) yes_here).1
        | inr off ↦ later (found_from-FoundFrom r (some x) s (rw off at h))
      ]

  FoundFrom-found_from :
      {r : Regex} {b : Option ℕ} {s : Text}
      → FoundFrom is_alnum r b s
      → found_from is_alnum r b s ≡ true
  unfolding found_from
  FoundFrom-found_from {r} {b} {s = []} (here d) =
      found_end (ends is_alnum r (at b [])) _ (Runs-ends d)
  FoundFrom-found_from {r} {b} {s = x ∷ s} (here d) =
      rw (found_end (ends is_alnum r (at b (x ∷ s))) _ (Runs-ends d)) refl
  FoundFrom-found_from {r} {b} (later d) = ground (arith, FoundFrom-found_from d)

  -- `search` finds a pattern exactly where there is a match of it.
  pub search_in_iff : (r : Regex) (s : Text) → (search_in is_alnum r s ≡ true) ↔ Found is_alnum r s
  unfolding search_in
  search_in_iff r s = (found_from-FoundFrom r none s, FoundFrom-found_from)
