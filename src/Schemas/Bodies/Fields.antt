-- ===== src/Schemas/Bodies/Fields.antt =====
-- What the validation of a field guarantees of its value.
use jarvis_ai_coo.Prelude.{
  ℕ, ◌≤◌, Text, ◌≡◌, refl, sym, ap, ◌∙◌, subst, Bool, true, false, not, ◌&&◌, leb, ◌==◌, text_eq,
  nat_eq, Option, none, some, List, [], ◌∷◌, length, contains, map, Distinct, inl, inr, arith,
  if◌then◌else◌, Bool-cases,
}
use jarvis_ai_coo.Database.{Env}
use jarvis_ai_coo.Strings.{strip, is_empty}
use jarvis_ai_coo.Strings.Strips.{strip-strip, length-strip}
use jarvis_ai_coo.Patterns.{search_in}
use jarvis_ai_coo.Schemas.Sanitize.{
  allowed_tools, Sanitized, accepted, refused, clean_tool, sanitize_tools,
}
use jarvis_ai_coo.Schemas.Catalogue.{Decides, all_catalogued, sanitize_tools-Decides}
use jarvis_ai_coo.Schemas.Texts.{SanitizedText, kept, rejected, sanitize_text}
use jarvis_ai_coo.Schemas.Texts.Judged.{IsHarmless, Judges, sanitize_text-Judges}
use jarvis_ai_coo.Schemas.Bodies.{sanitized_text, sanitized_tools, check_text, check_tools}

-- A text as it may be stored: with no blank at its ends, of a length within bounds, and harmless.
pub record IsText (env : Env) (shortest longest : ℕ) (text : Text) : Type 0 where
  pub stripped : strip text ≡ text
  pub long_enough : shortest ≤ length text
  pub short_enough : length text ≤ longest
  pub harmless : IsHarmless env text

-- Tools as they may be stored: of the catalogue, each once.
pub record IsCatalogued (tools : List Text) : Type 0 where
  pub known : (t : Text) → contains tools t ≡ true → contains allowed_tools t ≡ true
  pub once : Distinct tools

-- A definition as it may be stored.
pub record IsClean (env : Env) (name description department content : Text) (tools : List Text)
    : Type 0 where
  pub name_text : IsText env 1 255 name
  pub description_text : IsText env 0 4000 description
  pub department_text : IsText env 1 128 department
  pub content_text : IsText env 1 50000 content
  pub catalogued : IsCatalogued tools

-- what holds of a value if there is one
abbrev pub Every : {A : Type 0} → (A → Type 0) → Option A → Type 0
Every P none = Unit
Every P (some a) = P a

not_blank : (t : Text) → is_empty t ≡ false → 1 ≤ length t
unfolding is_empty
not_blank [] h = cc
not_blank (c ∷ t) h = omega arith

kept_text :
    (env : Env) (allow_empty : Bool) (longest : ℕ) (text : Text) (answer : SanitizedText)
    → length text ≤ longest
    → Judges env allow_empty text answer
    → Every (IsText env (if allow_empty then 0 else 1) longest) (sanitized_text answer)
kept_text env allow_empty longest text (kept t) short (e, some_left, harmless) = record {
  stripped = ap strip e ∙ (strip-strip text ∙ sym e);
  long_enough = enough allow_empty some_left;
  short_enough = omega (arith, length-strip text, ap length e);
  harmless = harmless;
}
  where
    enough : (b : Bool) → (is_empty t && not b) ≡ false → (if b then 0 else 1) ≤ length t
    enough true h = omega arith
    enough false h = not_blank t (ground arith)
kept_text env allow_empty longest text (rejected f) short h = tt

pub checked_text :
    (env : Env) (allow_empty : Bool) (shortest longest : ℕ) (text : Text)
    → Every
        (IsText env (if allow_empty then 0 else 1) longest)
        (check_text env allow_empty shortest longest text)
unfolding check_text
checked_text env allow_empty shortest longest text =
    elim (Bool-cases (leb shortest (length text) && leb (length text) longest)) [
      | inl within ↦ rw within (
          kept_text env allow_empty longest text (sanitize_text env allow_empty text) (ground arith)
            (sanitize_text-Judges env allow_empty text))
      | inr without ↦ rw without tt
    ]

catalogued_values :
    (env : Env) (values : List Text) (t : Text)
    → all_catalogued env values ≡ true
    → contains (map (clean_tool env) values) t ≡ true
    → contains allowed_tools t ≡ true
unfolding all_catalogued
catalogued_values env [] t a h = cc
catalogued_values env (raw ∷ values) t a h = elim (Bool-cases (t == clean_tool env raw)) [
  | inl e ↦
      let same : t ≡ clean_tool env raw = ground arith in
      subst (λ u. contains allowed_tools u ≡ true) (sym same) (ground arith)
  | inr e ↦ catalogued_values env values t (ground arith) (ground arith)
]

kept_tools :
    (env : Env) (values : List Text) (answer : Sanitized)
    → Decides env values answer
    → Every IsCatalogued (sanitized_tools answer)
kept_tools env values (accepted tools) (a, (d, same)) = record {
  known = λ t h. catalogued_values env values t a (sym (same t) ∙ h);
  once = d;
}
kept_tools env values (refused f) h = tt

pub checked_tools : (env : Env) (values : List Text) → Every IsCatalogued (check_tools env values)
unfolding check_tools
checked_tools env values =
    kept_tools env values (sanitize_tools env values) (sanitize_tools-Decides env values)

pub no_tools : IsCatalogued []
no_tools = record { known = λ t h. cc; once = tt }

empty_kept : (env : Env) → sanitize_text env true [] ≡ kept []
unfolding sanitize_text search_in strip
empty_kept env = refl

pub no_description : (env : Env) → IsText env 0 4000 []
unfolding strip
no_description env =
    let (_, _, harmless) =
      subst (Judges env true []) (empty_kept env) (sanitize_text-Judges env true []) in
    record {
      stripped = refl;
      long_enough = omega arith;
      short_enough = omega arith;
      harmless = harmless;
    }
