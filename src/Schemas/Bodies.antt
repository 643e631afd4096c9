-- ===== src/Schemas/Bodies.antt =====
-- app/schemas.py, "Inbound payloads": the bodies as they are sent, and their validation. `Field`
-- bounds the length of a value before its sanitizer runs, and a default is not validated.
pub mod Fields
pub mod Validated
use jarvis_ai_coo.Prelude.{
  ℕ, Text, codes, Bool, true, false, ◌&&◌, leb, Option, none, some, List, [], length, if◌then◌else◌,
}
use jarvis_ai_coo.Database.{Env}
use jarvis_ai_coo.Schemas.Payloads.{
  SkillDraftCreateIn, SkillDraftUpdateIn, SkillVersionCreateIn, SkillActivateIn,
}
use jarvis_ai_coo.Schemas.Sanitize.{Sanitized, accepted, refused, sanitize_tools}
use jarvis_ai_coo.Schemas.Texts.{SanitizedText, kept, rejected, sanitize_text}

-- A field of a JSON object: absent, `null`, a value of another type, or a value.
pub data Given (A : Type 0) : Type 0 where
  absent null malformed : Given A
  value : A → Given A

-- The body of a new draft, of a new version, and of an edit.
pub record DefinitionBody : Type 0 where
  pub name : Given Text
  pub description : Given Text
  pub department : Given Text
  pub content : Given Text
  pub requested_tools : Given (List Text)

pub record ActivateBody : Type 0 where
  pub version_id : Given Text

-- the chain of validated fields, which ends at the first failure
infixl 5 ◌>>=◌
abbrev pub ◌>>=◌ : {A B : Type 0} → Option A → (A → Option B) → Option B
none >>= f = none
some a >>= f = f a

abbrev pub sanitized_text : SanitizedText → Option Text
sanitized_text (kept text) = some text
sanitized_text (rejected _) = none

abbrev pub sanitized_tools : Sanitized → Option (List Text)
sanitized_tools (accepted tools) = some tools
sanitized_tools (refused _) = none

-- `Field(min_length=…, max_length=…)` and the `field_validator` of a text
unfoldable pub check_text : Env → Bool → ℕ → ℕ → Text → Option Text
check_text env allow_empty min_length max_length text =
    let sanitized = sanitized_text (sanitize_text env allow_empty text) in
    if leb min_length (length text) && leb (length text) max_length then sanitized else none

unfoldable pub check_tools : Env → List Text → Option (List Text)
check_tools env tools = sanitized_tools (sanitize_tools env tools)

-- a field without a default, one with a default, and one of type `… | None` with the default `None`
module _ {A : Type 0} where
  abbrev pub required : (A → Option A) → Given A → Option A
  required check (value a) = check a
  required check _ = none

  abbrev pub defaulted : A → (A → Option A) → Given A → Option A
  defaulted default check (value a) = check a
  defaulted default check absent = some default
  defaulted default check _ = none

  abbrev pub nullable : (A → Option A) → Given A → Option (Option A)
  nullable check (value a) = check a >>= λ b. some (some b)
  nullable check malformed = none
  nullable check _ = some none

-- The fields of a definition.
unfoldable pub check_name : Env → Text → Option Text
unfolding check_text
check_name env = check_text env false 1 255

unfoldable pub check_description : Env → Text → Option Text
unfolding check_text
check_description env = check_text env true 0 4000

unfoldable pub check_department : Env → Text → Option Text
unfolding check_text
check_department env = check_text env false 1 128

unfoldable pub check_content : Env → Text → Option Text
unfolding check_text
check_content env = check_text env false 1 50000

unfoldable pub validate_create : Env → DefinitionBody → Option SkillDraftCreateIn
unfolding check_name check_description check_department check_content check_tools
validate_create env body = do
  name ← required (check_name env) body.name
  description ← defaulted [] (check_description env) body.description
  department ← required (check_department env) body.department
  content ← required (check_content env) body.content
  requested_tools ← defaulted [] (check_tools env) body.requested_tools
  some (record {
    name = name;
    description = description;
    department = department;
    content = content;
    requested_tools = requested_tools;
  })

unfoldable pub validate_version : Env → DefinitionBody → Option SkillVersionCreateIn
unfolding check_name check_description check_department check_content check_tools
validate_version env body = do
  name ← required (check_name env) body.name
  description ← defaulted [] (check_description env) body.description
  department ← required (check_department env) body.department
  content ← required (check_content env) body.content
  requested_tools ← defaulted [] (check_tools env) body.requested_tools
  some (record {
    name = name;
    description = description;
    department = department;
    content = content;
    requested_tools = requested_tools;
  })

unfoldable pub validate_update : Env → DefinitionBody → Option SkillDraftUpdateIn
unfolding check_name check_description check_department check_content check_tools
validate_update env body = do
  name ← nullable (check_name env) body.name
  description ← nullable (check_description env) body.description
  department ← nullable (check_department env) body.department
  content ← nullable (check_content env) body.content
  requested_tools ← nullable (check_tools env) body.requested_tools
  some (record {
    name = name;
    description = description;
    department = department;
    content = content;
    requested_tools = requested_tools;
  })

unfoldable pub validate_activate : ActivateBody → Option SkillActivateIn
validate_activate body = do
  version_id ← nullable (λ id. some id) body.version_id
  some (record { version_id = version_id })
