-- ===== src/Strings/Strips.antt =====
-- What `str.strip` leaves.
use jarvis_ai_coo.Prelude.{
  ℕ, suc, Text, ◌≡◌, refl, sym, ap, ◌∙◌, [], ◌∷◌, length, ◌≤◌, inl, inr, arith, Bool-cases,
}
use jarvis_ai_coo.Strings.{is_space, lstrip, rstrip, strip, keep_unless_blank}

keep_rstrip : (c : ℕ) (s t : Text) → rstrip s ≡ t → rstrip (c ∷ s) ≡ keep_unless_blank c t
unfolding rstrip
keep_rstrip c s t h = ap (keep_unless_blank c) h

kept_stays :
    (c : ℕ) (t : Text) → rstrip t ≡ t → rstrip (keep_unless_blank c t) ≡ keep_unless_blank c t
unfolding rstrip
kept_stays c [] h = elim (Bool-cases (is_space c)) [
  | inl blank ↦ rw blank refl
  | inr shown ↦ rw (shown, shown) refl
]
kept_stays c (d ∷ t) h = ap (keep_unless_blank c) h

rstrip-rstrip : (s : Text) → rstrip (rstrip s) ≡ rstrip s
unfolding rstrip
rstrip-rstrip [] = refl
rstrip-rstrip (c ∷ s) = kept_stays c (rstrip s) (rstrip-rstrip s)

lstrip-lstrip : (s : Text) → lstrip (lstrip s) ≡ lstrip s
unfolding lstrip
lstrip-lstrip [] = refl
lstrip-lstrip (c ∷ s) = elim (Bool-cases (is_space c)) [
  | inl blank ↦ rw blank (lstrip-lstrip s)
  | inr shown ↦ rw (shown, shown) refl
]

-- the rest of a text that ends in no blank
rest_rstrip : (c : ℕ) (s t : Text) → keep_unless_blank c t ≡ c ∷ s → s ≡ t
unfolding keep_unless_blank
rest_rstrip c s [] h = ground arith
rest_rstrip c s (d ∷ t) h = ground arith

rstrip-lstrip : (s : Text) → rstrip s ≡ s → rstrip (lstrip s) ≡ lstrip s
unfolding lstrip rstrip
rstrip-lstrip [] h = refl
rstrip-lstrip (c ∷ s) h = elim (Bool-cases (is_space c)) [
  | inl blank ↦ rw blank (rstrip-lstrip s (sym (rest_rstrip c s (rstrip s) h)))
  | inr shown ↦ rw shown h
]

pub strip-strip : (s : Text) → strip (strip s) ≡ strip s
unfolding strip
strip-strip s = ap lstrip (rstrip-lstrip (rstrip s) (rstrip-rstrip s)) ∙ lstrip-lstrip (rstrip s)

length-lstrip : (s : Text) → length (lstrip s) ≤ length s
unfolding lstrip
length-lstrip [] = omega arith
length-lstrip (c ∷ s) = ground (arith, length-lstrip s)

length-kept : (c : ℕ) (t : Text) → length (keep_unless_blank c t) ≤ suc (length t)
unfolding keep_unless_blank
length-kept c [] = ground arith
length-kept c (d ∷ t) = omega arith

length-rstrip : (s : Text) → length (rstrip s) ≤ length s
unfolding rstrip
length-rstrip [] = omega arith
length-rstrip (c ∷ s) = omega (arith, length-kept c (rstrip s), length-rstrip s)

pub length-strip : (s : Text) → length (strip s) ≤ length s
unfolding strip
length-strip s = omega (arith, length-lstrip (rstrip s), length-rstrip s)
