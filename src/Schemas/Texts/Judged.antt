-- ===== src/Schemas/Texts/Judged.antt =====
-- What `sanitize_text` lets pass.
use jarvis_ai_coo.Prelude.{
  Text, ◌≡◌, refl, sym, ap, ◌∙◌, subst, Bool, true, false, not, ◌&&◌, List, [], ◌∷◌, All, In, inl,
  inr, if◌then◌else◌, Bool-cases,
}
use jarvis_ai_coo.Strings.{strip, is_empty}
use jarvis_ai_coo.Strings.Strips.{strip-strip}
use jarvis_ai_coo.Patterns.{Regex, search_in, Found, search_in_iff}
use jarvis_ai_coo.Database.{Env}
use jarvis_ai_coo.Schemas.Texts.{
  sqli_patterns, blank, forbidden, SanitizedText, kept, rejected, check_patterns, sanitize_text,
}

-- No pattern matches anywhere in the text.
abbrev pub IsHarmless : Env → Text → Type 0
IsHarmless env text = All (λ r. ¬ Found env.is_alnum r text) sqli_patterns

-- What an answer of `sanitize_text` says of the value.
abbrev pub Judges : Env → Bool → Text → SanitizedText → Type 0
Judges env allow_empty value (kept text) =
    (text ≡ strip value) × ((is_empty text && not allow_empty) ≡ false) × IsHarmless env text
Judges env allow_empty value (rejected blank) = (strip value ≡ []) × (allow_empty ≡ false)
Judges env allow_empty value (rejected (forbidden r)) =
    In r sqli_patterns × Found env.is_alnum r (strip value)

-- the same of the loop over some patterns
abbrev JudgesLoop : Env → List Regex → Text → SanitizedText → Type 0
JudgesLoop env patterns cleaned (kept text) =
    (text ≡ cleaned) × All (λ r. ¬ Found env.is_alnum r cleaned) patterns
JudgesLoop env patterns cleaned (rejected blank) = ⊥
JudgesLoop env patterns cleaned (rejected (forbidden r)) =
    In r patterns × Found env.is_alnum r cleaned

one_more :
    (env : Env) (r : Regex) (patterns : List Regex) (cleaned : Text) (answer : SanitizedText)
    → ¬ Found env.is_alnum r cleaned
    → JudgesLoop env patterns cleaned answer
    → JudgesLoop env (r ∷ patterns) cleaned answer
one_more env r patterns cleaned (kept text) n (e, a) = (e, (n, a))
one_more env r patterns cleaned (rejected blank) n h = h
one_more env r patterns cleaned (rejected (forbidden r')) n (m, f) = (inr m, f)

check_patterns-JudgesLoop :
    (env : Env) (patterns : List Regex) (cleaned : Text)
    → JudgesLoop env patterns cleaned (check_patterns env patterns cleaned)
unfolding check_patterns
check_patterns-JudgesLoop env [] cleaned = (refl, tt)
check_patterns-JudgesLoop env (r ∷ patterns) cleaned =
    elim (Bool-cases (search_in env.is_alnum r cleaned)) [
      | inl there ↦ rw there (inl refl, (search_in_iff env.is_alnum r cleaned).0 there)
      | inr absent ↦ rw absent (
          one_more env r patterns cleaned (check_patterns env patterns cleaned)
            (λ f. cc ((search_in_iff env.is_alnum r cleaned).1 f, absent))
            (check_patterns-JudgesLoop env patterns cleaned))
    ]

no_text : (t : Text) (b : Bool) → (is_empty t && not b) ≡ true → (t ≡ []) × (b ≡ false)
unfolding is_empty
no_text [] true h = cc
no_text [] false h = (refl, refl)
no_text (c ∷ t) b h = cc

-- `sanitize_text` strips the value, and lets it pass exactly if something is left, or nothing needs to
-- be, and no pattern matches anywhere in it. A refusal names a pattern that does, or says that nothing
-- is left where something has to be.
pub sanitize_text-Judges :
    (env : Env) (allow_empty : Bool) (value : Text)
    → Judges env allow_empty value (sanitize_text env allow_empty value)
unfolding sanitize_text
sanitize_text-Judges env allow_empty value =
    elim (Bool-cases (is_empty (strip value) && not allow_empty)) [
      | inl nothing ↦ rw nothing (no_text (strip value) allow_empty nothing)
      | inr something ↦ rw something (
          whole (check_patterns env sqli_patterns (strip value)) something
            (check_patterns-JudgesLoop env sqli_patterns (strip value)))
    ]
  where
    whole :
        (answer : SanitizedText)
        → (is_empty (strip value) && not allow_empty) ≡ false
        → JudgesLoop env sqli_patterns (strip value) answer
        → Judges env allow_empty value answer
    whole (kept text) something (e, a) =
        subst (λ t. Judges env allow_empty value (kept t)) (sym e) (refl, something, a)
    whole (rejected blank) something h = elim h [ ]
    whole (rejected (forbidden r)) something h = h

check_patterns-kept :
    (env : Env) (patterns : List Regex) (cleaned t : Text)
    → check_patterns env patterns cleaned ≡ kept t
    → t ≡ cleaned
check_patterns-kept env patterns cleaned t h =
    (subst (JudgesLoop env patterns cleaned) h (check_patterns-JudgesLoop env patterns cleaned)).0

-- A text that `sanitize_text` has let pass passes again, as it is: what is stored can be sent back.
pub sanitize_text_again :
    (env : Env) (allow_empty : Bool) (value text : Text)
    → sanitize_text env allow_empty value ≡ kept text
    → sanitize_text env allow_empty text ≡ kept text
unfolding sanitize_text
sanitize_text_again env allow_empty value text h =
    let (e, _, _) =
      subst (Judges env allow_empty value) h (sanitize_text-Judges env allow_empty value) in
    let same : strip text ≡ strip value = ap strip e ∙ strip-strip value in
    subst
      (λ s.
        (if is_empty s && not allow_empty
          then rejected blank
          else check_patterns env sqli_patterns s)
        ≡ kept text)
      (sym same) h
