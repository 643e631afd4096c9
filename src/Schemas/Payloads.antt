-- ===== src/Schemas/Payloads.antt =====
-- app/schemas.py, "Inbound payloads", as the handlers get them: after validation.
use jarvis_ai_coo.Prelude.{Text, Option, List}

pub record SkillDraftCreateIn : Type 0 where
  pub name : Text
  pub description : Text
  pub department : Text
  pub content : Text
  pub requested_tools : List Text

-- A field that is `none` is not updated.
pub record SkillDraftUpdateIn : Type 0 where
  pub name : Option Text
  pub description : Option Text
  pub department : Option Text
  pub content : Option Text
  pub requested_tools : Option (List Text)

pub record SkillVersionCreateIn : Type 0 where
  pub name : Text
  pub description : Text
  pub department : Text
  pub content : Text
  pub requested_tools : List Text

pub record SkillActivateIn : Type 0 where
  pub version_id : Option Text
