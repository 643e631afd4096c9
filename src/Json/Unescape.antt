-- ===== src/Json/Unescape.antt =====
-- Reading back one escaped character.
use jarvis_ai_coo.Prelude.{
  ℕ, ◌+◌, ◌-◌, ◌*◌, ◌/◌, ◌%◌, ◌≤◌, ◌<◌, Text, ◌≡◌, refl, sym, ap, ◌∙◌, subst, Bool, true, false,
  ◌&&◌, ◌||◌, ◌==◌, nat_eq, ltb, leb, Option, none, some, List, [], ◌∷◌, ◌++◌, ◌⊎◌, inl, inr, arith,
  All, contains, if◌then◌else◌, Bool-cases,
}
use native.Mathlib.Decide.{ℕ_discrete}
use jarvis_ai_coo.Json.{hex_digit, unicode_escape, escape}

-- A Unicode scalar value: what a JSON text can hold.
abbrev pub IsScalar : ℕ → Type 0
IsScalar c = (c < 55296) ⊎ ((57344 ≤ c) × (c < 1114112))

digit_of : ℕ → ℕ
digit_of x = if ltb x 58 then x - 48 else x - 87

number_of : ℕ → ℕ → ℕ → ℕ → ℕ
unfolding digit_of
number_of a b c d = digit_of a * 4096 + digit_of b * 256 + digit_of c * 16 + digit_of d

-- the second half of a pair of surrogates
low_half : ℕ → Text → Option (ℕ × Text)
unfolding number_of
low_half high (_ ∷ _ ∷ a ∷ b ∷ c ∷ d ∷ r) =
    some (65536 + (high - 55296) * 1024 + (number_of a b c d - 56320), r)
low_half high _ = none

after_u : Text → Option (ℕ × Text)
unfolding low_half
after_u (a ∷ b ∷ c ∷ d ∷ r) =
    let n = number_of a b c d in
    let pair = low_half n r in if leb 55296 n && ltb n 56320 then pair else some (n, r)
after_u _ = none

after_backslash : ℕ → Text → Option (ℕ × Text)
unfolding after_u
after_backslash x r =
    if x == 110
    then some (10, r)
    else if x == 114
    then some (13, r)
    else if x == 116
    then some (9, r)
    else if x == 98
    then some (8, r)
    else if x == 102
    then some (12, r)
    else if x == 117
    then after_u r
    else some (x, r)

backslash : Text → Option (ℕ × Text)
unfolding after_backslash
backslash [] = none
backslash (x ∷ r) = after_backslash x r

-- the first character of a text that is escaped, and what is behind it; none at a quote
pub unescape : Text → Option (ℕ × Text)
unfolding backslash
unescape [] = none
unescape (x ∷ r) =
    let escaped = backslash r in if x == 34 then none else if x == 92 then escaped else some (x, r)

pub at_quote : (r : Text) → unescape (34 ∷ r) ≡ none
unfolding unescape nat_eq ℕ_discrete
at_quote r = refl

digit_back : (d : ℕ) → d < 16 → digit_of (hex_digit d) ≡ d
unfolding digit_of hex_digit
digit_back d h = ground arith

number_back :
    (n : ℕ)
    → n < 65536
    → number_of
        (hex_digit (n / 4096 % 16))
        (hex_digit (n / 256 % 16))
        (hex_digit (n / 16 % 16))
        (hex_digit (n % 16))
      ≡ n
unfolding number_of
number_back n h =
    rw
      (
        digit_back (n / 4096 % 16) (omega arith),
        digit_back (n / 256 % 16) (omega arith),
        digit_back (n / 16 % 16) (omega arith),
        digit_back (n % 16) (omega arith),
      )
      (omega arith)

plain_back :
    (n : ℕ) (r : Text)
    → n < 65536
    → (leb 55296 n && ltb n 56320) ≡ false
    → unescape (unicode_escape n ++ r) ≡ some (n, r)
unfolding unescape unicode_escape nat_eq ℕ_discrete
plain_back n r h single = rw (number_back n h) (rw single refl)

pair_back :
    (high low : ℕ) (r : Text)
    → high < 65536
    → low < 65536
    → (leb 55296 high && ltb high 56320) ≡ true
    → unescape (unicode_escape high ++ (unicode_escape low ++ r))
      ≡ some (65536 + (high - 55296) * 1024 + (low - 56320), r)
unfolding unescape unicode_escape nat_eq ℕ_discrete
pair_back high low r h l pair = rw (number_back high h) (rw pair (rw (number_back low l) refl))

-- the characters that have a short escape
abbrev short : List ℕ
short = 34 ∷ 92 ∷ 10 ∷ 13 ∷ 9 ∷ 8 ∷ 12 ∷ []

short_back : (r : Text) → All (λ c. unescape (escape c ++ r) ≡ some (c, r)) short
unfolding escape unescape nat_eq ℕ_discrete
short_back r = (refl, (refl, (refl, (refl, (refl, (refl, (refl, tt)))))))

contained : (P : ℕ → Type 0) (cs : List ℕ) (c : ℕ) → All P cs → contains cs c ≡ true → P c
contained P [] c a h = cc
contained P (d ∷ cs) c a h = elim (Bool-cases (c == d)) [
  | inl e ↦ let same : c ≡ d = ground arith in subst P (sym same) a.0
  | inr e ↦ contained P cs c a.1 (ground arith)
]

-- the others, as they stand or by their number
other_escape : ℕ → Text
unfolding unicode_escape
other_escape c =
    if ltb c 32 || ltb 126 c
    then (if ltb c 65536
        then unicode_escape c
        else unicode_escape (55296 + (c - 65536) / 1024)
          ++ unicode_escape (56320 + (c - 65536) % 1024))
    else c ∷ []

long_escape : (c : ℕ) → contains short c ≡ false → escape c ≡ other_escape c
unfolding escape other_escape
long_escape c h = by_tests (c == 34) (c == 92) (c == 10) (c == 13) (c == 9) (c == 8) (c == 12) h
  where
    by_tests :
        (a b d e f g i : Bool)
        → (a || (b || (d || (e || (f || (g || (i || false))))))) ≡ false
        → (if a
            then 92 ∷ 34 ∷ []
            else if b
            then 92 ∷ 92 ∷ []
            else if d
            then 92 ∷ 110 ∷ []
            else if e
            then 92 ∷ 114 ∷ []
            else if f
            then 92 ∷ 116 ∷ []
            else if g
            then 92 ∷ 98 ∷ []
            else if i
            then 92 ∷ 102 ∷ []
            else other_escape c)
          ≡ other_escape c
    by_tests a b d e f g i h = ground arith

not_special : (c : ℕ) → contains short c ≡ false → ((c == 34) ≡ false) × ((c == 92) ≡ false)
not_special c h = (ground arith, ground arith)

pub append_assoc : (a b c : Text) → (a ++ b) ++ c ≡ a ++ (b ++ c)
append_assoc [] b c = refl
append_assoc (x ∷ a) b c = ap (λ s. x ∷ s) (append_assoc a b c)

printable_back : (c : ℕ) (r : Text) → contains short c ≡ false → unescape (c ∷ r) ≡ some (c, r)
unfolding unescape
printable_back c r h =
    let (not_quote, no_backslash) = not_special c h in rw (not_quote, no_backslash) refl

other_back :
    (c : ℕ) (r : Text)
    → contains short c ≡ false
    → IsScalar c
    → unescape (other_escape c ++ r) ≡ some (c, r)
unfolding other_escape
other_back c r h scalar = elim (Bool-cases (ltb c 32 || ltb 126 c)) [
  | inl hidden ↦ elim (Bool-cases (ltb c 65536)) [
    | inl small ↦ rw (hidden, small) (plain_back c r (ground arith) (single scalar small))
    | inr large ↦
        let (at_least, below) = range scalar large in
        let quotient : (c - 65536) / 1024 < 1024 = omega arith in
        rw (hidden, large)
          (ap unescape (
              append_assoc (unicode_escape (55296 + (c - 65536) / 1024))
                (unicode_escape (56320 + (c - 65536) % 1024)) r)
            ∙ (pair_back (55296 + (c - 65536) / 1024) (56320 + (c - 65536) % 1024) r (omega arith)
                  (omega arith) (ground arith)
                ∙ ap (λ n. some (n, r)) (omega arith)))
  ]
  | inr printable ↦ rw printable (printable_back c r h)
]
  where
    single : IsScalar c → ltb c 65536 ≡ true → (leb 55296 c && ltb c 56320) ≡ false
    single (inl low) small = ground arith
    single (inr (high, _)) small = ground arith

    range : IsScalar c → ltb c 65536 ≡ false → (65536 ≤ c) × (c < 1114112)
    range (inl low) large = absurd (ground arith)
    range (inr (_, high)) large = (ground arith, high)

pub unescape-escape : (c : ℕ) (r : Text) → IsScalar c → unescape (escape c ++ r) ≡ some (c, r)
unescape-escape c r scalar = elim (Bool-cases (contains short c)) [
  | inl known ↦ contained (λ d. unescape (escape d ++ r) ≡ some (d, r)) short c (short_back r) known
  | inr other ↦
      subst (λ t. unescape (t ++ r) ≡ some (c, r)) (sym (long_escape c other))
        (other_back c r other scalar)
]
