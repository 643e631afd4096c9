-- ===== src/Schemas/Catalogue.antt =====
-- What `sanitize_tools` accepts: the tools of the catalogue, whatever the other checks say.
use jarvis_ai_coo.Prelude.{
  ◌≤◌, Text, ◌≡◌, ◌≢◌, refl, sym, ap, ◌∙◌, subst, Bool, true, false, not, ◌&&◌, ◌||◌, ◌==◌, text_eq,
  nat_eq, Option, none, some, List, [], ◌∷◌, ◌++◌, map, length, contains, All, Distinct,
  contains-append, append-Distinct, length-Distinct, ltb, inl, inr, arith, if◌then◌else◌,
  Bool-cases,
}
use native.Mathlib.Decide.{ℕ_discrete}
use jarvis_ai_coo.Strings.{is_empty, starts_with, is_infix}
use jarvis_ai_coo.Database.{Env}
use jarvis_ai_coo.Schemas.Sanitize.{
  allowed_tools, max_tools_per_skill, dangerous_tool_fragments, is_tool_name, ToolFailure, bad_name,
  destructive, not_in_catalogue, too_many, has_fragment, tool_failure, Sanitized, accepted, refused,
  clean_tool, sanitize_rest, sanitize_tools,
}

-- No tool of the catalogue meets a check.
catalogue_passes : All (λ t. tool_failure t ≡ none) allowed_tools
unfolding tool_failure is_tool_name has_fragment is_infix starts_with is_empty nat_eq text_eq
    ℕ_discrete
catalogue_passes = (
  refl,
  (refl, (refl, (refl, (refl, (refl, (refl, (refl, (refl, (refl, (refl, (refl, tt))))))))))),
)

All-contains :
    (P : Text → Type 0) (ts : List Text) (t : Text) → All P ts → contains ts t ≡ true → P t
All-contains P [] t a h = cc
All-contains P (u ∷ ts) t a h = elim (Bool-cases (t == u)) [
  | inl e ↦ let same : t ≡ u = ground arith in subst P (sym same) a.0
  | inr e ↦ All-contains P ts t a.1 (ground arith)
]

-- A tool fails exactly if it is not in the catalogue.
failed_tool :
    (t : Text) (f : ToolFailure)
    → tool_failure t ≡ some f
    → (contains allowed_tools t ≡ false) × (f ≢ too_many)
unfolding tool_failure
failed_tool t f h = elim (Bool-cases (contains allowed_tools t)) [
  | inl known ↦
      cc (All-contains (λ u. tool_failure u ≡ none) allowed_tools t catalogue_passes known, h)
  | inr unknown ↦ (unknown, λ e. ground arith)
]

last_check :
    (a b c : Bool)
    → (if not a
        then some bad_name
        else if b
        then some destructive
        else if not c
        then some not_in_catalogue
        else none)
      ≡ none
    → c ≡ true
last_check a b c h = ground arith

passed_tool : (t : Text) → tool_failure t ≡ none → contains allowed_tools t ≡ true
unfolding tool_failure
passed_tool t h =
    last_check (is_tool_name t) (has_fragment dangerous_tool_fragments t) (contains allowed_tools t)
      h

-- Every value is a tool of the catalogue, once stripped and in lower case.
unfoldable pub all_catalogued : Env → List Text → Bool
all_catalogued env [] = true
all_catalogued env (raw ∷ values) =
    contains allowed_tools (clean_tool env raw) && all_catalogued env values

-- What an answer of `sanitize_tools` says of the values: accepted tools are each in the catalogue, no
-- one twice, and together those of the values; a refusal says that a value is not in the catalogue, and
-- is never one for their number.
abbrev pub Decides : Env → List Text → Sanitized → Type 0
Decides env values (accepted tools) =
    (all_catalogued env values ≡ true)
    × (Distinct tools × ((t : Text) → contains tools t ≡ contains (map (clean_tool env) values) t))
Decides env values (refused failure) = (all_catalogued env values ≡ false) × (failure ≢ too_many)

-- the same, behind the tools that the loop has taken
DecidesRest : Env → List Text → List Text → Sanitized → Type 0
DecidesRest env cleaned values (accepted tools) =
    (all_catalogued env values ≡ true)
    × (Distinct tools
        × ((t : Text)
            → contains tools t ≡ (contains cleaned t || contains (map (clean_tool env) values) t)))
DecidesRest env cleaned values (refused failure) =
    (all_catalogued env values ≡ false) × (failure ≢ too_many)

abbrev Catalogued : List Text → Type 0
Catalogued ts = (t : Text) → contains ts t ≡ true → contains allowed_tools t ≡ true

few_enough :
    (cleaned : List Text)
    → Distinct cleaned
    → Catalogued cleaned
    → ltb max_tools_per_skill (length cleaned) ≡ false
few_enough cleaned d c =
    let few : length cleaned ≤ length allowed_tools = length-Distinct cleaned allowed_tools d c in
    ground arith

append-Catalogued :
    (t : Text) (ts : List Text)
    → contains allowed_tools t ≡ true
    → Catalogued ts
    → Catalogued (ts ++ t ∷ [])
append-Catalogued t ts h c u m = elim (Bool-cases (contains ts u)) [
  | inl old ↦ c u old
  | inr fresh ↦
      let same : u ≡ t =
        new_one u t (contains ts u) fresh (sym (contains-append u ts (t ∷ [])) ∙ m) in
      subst (λ v. contains allowed_tools v ≡ true) (sym same) h
]
  where
    new_one : (a b : Text) (k : Bool) → k ≡ false → (k || (a == b || false)) ≡ true → a ≡ b
    new_one a b k f g = ground arith

-- a value that the loop passes over, and one that it takes
skipped :
    (env : Env) (cleaned values : List Text) (raw : Text) (r : Sanitized)
    → contains allowed_tools (clean_tool env raw) ≡ true
    → contains cleaned (clean_tool env raw) ≡ true
    → DecidesRest env cleaned values r
    → DecidesRest env cleaned (raw ∷ values) r
unfolding DecidesRest all_catalogued
skipped env cleaned values raw (accepted tools) known old (a, (d, m)) = (
  rw known a,
  (d, λ t. m t ∙ again t (clean_tool env raw) (contains (map (clean_tool env) values) t) old),
)
  where
    again :
        (t u : Text) (rest : Bool)
        → contains cleaned u ≡ true
        → (contains cleaned t || rest) ≡ (contains cleaned t || (t == u || rest))
    again t u rest h = ground arith
skipped env cleaned values raw (refused f) known old (a, n) = (rw known a, n)

taken :
    (env : Env) (cleaned values : List Text) (raw : Text) (r : Sanitized)
    → contains allowed_tools (clean_tool env raw) ≡ true
    → DecidesRest env (cleaned ++ clean_tool env raw ∷ []) values r
    → DecidesRest env cleaned (raw ∷ values) r
unfolding DecidesRest all_catalogued
taken env cleaned values raw (accepted tools) known (a, (d, m)) = (
  rw known a,
  (
    d,
    λ t.
        m t
        ∙ (ap (λ b. b || contains (map (clean_tool env) values) t)
              (contains-append t cleaned (clean_tool env raw ∷ []))
            ∙ shift (contains cleaned t) (t == clean_tool env raw)
                (contains (map (clean_tool env) values) t)),
  ),
)
  where
    shift : (a b c : Bool) → ((a || (b || false)) || c) ≡ (a || (b || c))
    shift a b c = ground arith
taken env cleaned values raw (refused f) known (a, n) = (rw known a, n)

refused_value :
    (env : Env) (cleaned values : List Text) (raw : Text) (f : ToolFailure)
    → tool_failure (clean_tool env raw) ≡ some f
    → DecidesRest env cleaned (raw ∷ values) (refused f)
unfolding DecidesRest all_catalogued
refused_value env cleaned values raw f h =
    let (unknown, n) = failed_tool (clean_tool env raw) f h in (rw unknown, n)

sanitize_rest_lem :
    (env : Env) (cleaned values : List Text)
    → Distinct cleaned
    → Catalogued cleaned
    → DecidesRest env cleaned values (sanitize_rest env cleaned values)
unfolding sanitize_rest DecidesRest all_catalogued
sanitize_rest_lem env cleaned [] d c = rw (few_enough cleaned d c) (refl, (d, λ t. ground arith))
sanitize_rest_lem env cleaned (raw ∷ values) d c =
    round (λ c' d' k. sanitize_rest_lem env c' values d' k) (tool_failure (clean_tool env raw)) refl
      (contains cleaned (clean_tool env raw)) refl
  where
    round :
        ((c' : List Text)
          → Distinct c'
          → Catalogued c'
          → DecidesRest env c' values (sanitize_rest env c' values))
        → (o : Option ToolFailure) → tool_failure (clean_tool env raw) ≡ o
        → (b : Bool) → contains cleaned (clean_tool env raw) ≡ b
        → DecidesRest env cleaned (raw ∷ values) (elim o [
          | some failure ↦ refused failure
          | none ↦
              if b
              then sanitize_rest env cleaned values
              else sanitize_rest env (cleaned ++ clean_tool env raw ∷ []) values
        ])
    round again (some f) bad b e = refused_value env cleaned values raw f bad
    round again none good true old =
        skipped env cleaned values raw _ (passed_tool _ good) old (again cleaned d c)
    round again none good false new = taken env cleaned values raw _ (passed_tool _ good) (
        again (cleaned ++ clean_tool env raw ∷ []) (append-Distinct _ cleaned new d)
          (append-Catalogued _ cleaned (passed_tool _ good) c))

-- `sanitize_tools` accepts exactly the lists whose values are all in the catalogue, once stripped and
-- in lower case. What it returns then are those tools, each once. Where it refuses, some value is not
-- in the catalogue: the check on the number of tools is never the one that raises.
pub sanitize_tools-Decides :
    (env : Env) (values : List Text) → Decides env values (sanitize_tools env values)
unfolding sanitize_tools DecidesRest
sanitize_tools-Decides env values =
    whole (sanitize_rest env [] values) (sanitize_rest_lem env [] values tt (λ t m. cc))
  where
    whole : (r : Sanitized) → DecidesRest env [] values r → Decides env values r
    whole (accepted tools) h = h
    whole (refused f) h = h
