-- ===== src/Json/Splits.antt =====
-- A dump is read back in one way: what two dumps have in common from the left is what was dumped.
use jarvis_ai_coo.Prelude.{
  ℕ, zero, suc, ◌+◌, ◌-◌, ◌*◌, ◌/◌, ◌%◌, ◌<◌, Text, ◌≡◌, refl, sym, ap, ◌∙◌, ltb, some, List, [],
  ◌∷◌, ◌++◌, All, inl, inr, arith, Bool-cases, nat_eq,
}
use jarvis_ai_coo.Json.{escape, escape_all, quote, quote_rest, quote_list, decimal, decimal_within}
use jarvis_ai_coo.Json.Unescape.{IsScalar, unescape, at_quote, unescape-escape, append_assoc}

abbrev pub IsUnicode : Text → Type 0
IsUnicode = All IsScalar

pub tails : {x y : ℕ} {s t : Text} → x ∷ s ≡ y ∷ t → s ≡ t
tails e = ground arith

heads : {x y : ℕ} {s t : Text} → x ∷ s ≡ y ∷ t → x ≡ y
heads e = ground arith

both_parts : (p q : ℕ × Text) → some p ≡ some q → (p.0 ≡ q.0) × (p.1 ≡ q.1)
both_parts p q e =
    let same : p ≡ q = ground arith in
    (ap (λ (x : ℕ × Text). x.0) same, ap (λ (x : ℕ × Text). x.1) same)

-- one more character
longer : (c : ℕ) (s r : Text) → escape_all (c ∷ s) ++ r ≡ escape c ++ (escape_all s ++ r)
unfolding escape_all
longer c s r = append_assoc (escape c) (escape_all s) r

quote_first : (c : ℕ) (s r r' : Text) → IsScalar c → 34 ∷ r ≡ escape_all (c ∷ s) ++ r' → ⊥
quote_first c s r r' h e =
    cc (at_quote r, ap unescape (e ∙ longer c s r'), unescape-escape c (escape_all s ++ r') h)

escape_all-splits :
    (s t r r' : Text)
    → IsUnicode s
    → IsUnicode t
    → escape_all s ++ (34 ∷ r) ≡ escape_all t ++ (34 ∷ r')
    → (s ≡ t) × (r ≡ r')
unfolding escape_all
escape_all-splits [] [] r r' hs ht e = (refl, tails e)
escape_all-splits [] (d ∷ t) r r' hs (hd, ht) e = absurd (quote_first d t r (34 ∷ r') hd e)
escape_all-splits (c ∷ s) [] r r' (hc, hs) ht e = absurd (quote_first c s r' (34 ∷ r) hc (sym e))
escape_all-splits (c ∷ s) (d ∷ t) r r' (hc, hs) (hd, ht) e =
    let e' : escape c ++ (escape_all s ++ (34 ∷ r)) ≡ escape d ++ (escape_all t ++ (34 ∷ r')) =
      sym (longer c s (34 ∷ r)) ∙ (e ∙ longer d t (34 ∷ r')) in
    let (same, rest) =
      both_parts (c, escape_all s ++ (34 ∷ r)) (d, escape_all t ++ (34 ∷ r'))
        (sym (unescape-escape c (escape_all s ++ (34 ∷ r)) hc)
          ∙ (ap unescape e' ∙ unescape-escape d (escape_all t ++ (34 ∷ r')) hd)) in
    let (texts, behind) = escape_all-splits s t r r' hs ht rest in
    (ap (λ x. x ∷ s) same ∙ ap (λ u. d ∷ u) texts, behind)

pub quote-splits :
    (s t r r' : Text)
    → IsUnicode s
    → IsUnicode t
    → quote s ++ r ≡ quote t ++ r'
    → (s ≡ t) × (r ≡ r')
unfolding quote
quote-splits s t r r' hs ht e = escape_all-splits s t r r' hs ht (
    sym (append_assoc (escape_all s) (34 ∷ []) r)
    ∙ (tails e ∙ append_assoc (escape_all t) (34 ∷ []) r'))

-- the dumps of a list, opened once
quote_rest_nil : (r : Text) → quote_rest [] ++ r ≡ 93 ∷ r
unfolding quote_rest
quote_rest_nil r = refl

quote_rest_cons :
    (t : Text) (ts : List Text) (r : Text)
    → quote_rest (t ∷ ts) ++ r ≡ 44 ∷ (quote t ++ (quote_rest ts ++ r))
unfolding quote_rest
quote_rest_cons t ts r = ap (λ s. 44 ∷ s) (append_assoc (quote t) (quote_rest ts) r)

quote_list_nil : (r : Text) → quote_list [] ++ r ≡ 91 ∷ (93 ∷ r)
unfolding quote_list
quote_list_nil r = refl

quote_list_cons :
    (t : Text) (ts : List Text) (r : Text)
    → quote_list (t ∷ ts) ++ r ≡ 91 ∷ (quote t ++ (quote_rest ts ++ r))
unfolding quote_list
quote_list_cons t ts r = ap (λ s. 91 ∷ s) (append_assoc (quote t) (quote_rest ts) r)

quote_opens : (t r : Text) → quote t ++ r ≡ 34 ∷ ((escape_all t ++ 34 ∷ []) ++ r)
unfolding quote
quote_opens t r = refl

bracket_comma : (s t : Text) → 93 ∷ s ≡ 44 ∷ t → ⊥
bracket_comma s t e = cc (heads e)

bracket_quote : (s t : Text) → 93 ∷ s ≡ 34 ∷ t → ⊥
bracket_quote s t e = cc (heads e)

quote_rest-splits :
    (ts us : List Text) (r r' : Text)
    → All IsUnicode ts
    → All IsUnicode us
    → quote_rest ts ++ r ≡ quote_rest us ++ r'
    → (ts ≡ us) × (r ≡ r')
quote_rest-splits [] [] r r' hs ht e =
    (refl, tails (sym (quote_rest_nil r) ∙ (e ∙ quote_rest_nil r')))
quote_rest-splits [] (u ∷ us) r r' hs ht e =
    absurd (bracket_comma _ _ (sym (quote_rest_nil r) ∙ (e ∙ quote_rest_cons u us r')))
quote_rest-splits (t ∷ ts) [] r r' hs ht e =
    absurd (bracket_comma _ _ (sym (quote_rest_nil r') ∙ (sym e ∙ quote_rest_cons t ts r)))
quote_rest-splits (t ∷ ts) (u ∷ us) r r' (h, hs) (k, ks) e =
    let (same, rest) =
      quote-splits t u (quote_rest ts ++ r) (quote_rest us ++ r') h k
        (tails (sym (quote_rest_cons t ts r) ∙ (e ∙ quote_rest_cons u us r'))) in
    let (texts, behind) = quote_rest-splits ts us r r' hs ks rest in
    (ap (λ x. x ∷ ts) same ∙ ap (λ x. u ∷ x) texts, behind)

no_list :
    (t : Text) (ts : List Text) (r r' : Text) → quote_list [] ++ r ≡ quote_list (t ∷ ts) ++ r' → ⊥
no_list t ts r r' e = bracket_quote _ _ (
    tails (sym (quote_list_nil r) ∙ (e ∙ quote_list_cons t ts r'))
    ∙ quote_opens t (quote_rest ts ++ r'))

pub quote_list-splits :
    (ts us : List Text) (r r' : Text)
    → All IsUnicode ts
    → All IsUnicode us
    → quote_list ts ++ r ≡ quote_list us ++ r'
    → (ts ≡ us) × (r ≡ r')
quote_list-splits [] [] r r' hs ht e =
    (refl, tails (tails (sym (quote_list_nil r) ∙ (e ∙ quote_list_nil r'))))
quote_list-splits [] (u ∷ us) r r' hs ht e = absurd (no_list u us r r' e)
quote_list-splits (t ∷ ts) [] r r' hs ht e = absurd (no_list t ts r' r (sym e))
quote_list-splits (t ∷ ts) (u ∷ us) r r' (h, hs) (k, ks) e =
    let (same, rest) =
      quote-splits t u (quote_rest ts ++ r) (quote_rest us ++ r') h k
        (tails (sym (quote_list_cons t ts r) ∙ (e ∙ quote_list_cons u us r'))) in
    let (texts, behind) = quote_rest-splits ts us r r' hs ks rest in
    (ap (λ x. x ∷ ts) same ∙ ap (λ x. u ∷ x) texts, behind)

-- the number that digits stand for, behind those of another
value_of : ℕ → Text → ℕ
value_of n [] = n
value_of n (c ∷ s) = value_of (n * 10 + (c - 48)) s

value_of-append : (n : ℕ) (s t : Text) → value_of n (s ++ t) ≡ value_of (value_of n s) t
unfolding value_of
value_of-append n [] t = refl
value_of-append n (c ∷ s) t = value_of-append (n * 10 + (c - 48)) s t

value_back : (fuel n : ℕ) → n < fuel → value_of 0 (decimal_within fuel n) ≡ n
unfolding value_of decimal_within
value_back zero n h = omega arith
value_back (suc fuel) n h = elim (Bool-cases (ltb n 10)) [
  | inl digit ↦ rw digit (omega arith)
  | inr more ↦ rw more (
      value_of-append 0 (decimal_within fuel (n / 10)) ((48 + n % 10) ∷ [])
      ∙ (ap (λ m. m * 10 + (48 + n % 10 - 48)) (value_back fuel (n / 10) (ground arith))
          ∙ omega arith))
]

last_apart : (s t : Text) (c : ℕ) → s ++ c ∷ [] ≡ t ++ c ∷ [] → s ≡ t
last_apart [] [] c e = refl
last_apart [] (d ∷ []) c e = cc (tails e)
last_apart [] (d ∷ x ∷ t) c e = cc (tails e)
last_apart (d ∷ []) [] c e = cc (tails e)
last_apart (d ∷ x ∷ s) [] c e = cc (tails e)
last_apart (d ∷ s) (x ∷ t) c e =
    ap (λ y. y ∷ s) (heads e) ∙ ap (λ u. x ∷ u) (last_apart s t c (tails e))

-- a number in front of the last character
pub decimal-splits : (n m c : ℕ) → decimal n ++ c ∷ [] ≡ decimal m ++ c ∷ [] → n ≡ m
unfolding decimal
decimal-splits n m c e =
    sym (value_back (n + 1) n (omega arith))
    ∙ (ap (value_of 0) (last_apart (decimal_within (n + 1) n) (decimal_within (m + 1) m) c e)
        ∙ value_back (m + 1) m (omega arith))
