-- ===== src/Examples/Tools.antt =====
-- Requested tools.
use jarvis_ai_coo.Prelude.{codes, ◌≡◌, refl, [], ◌∷◌, nat_eq, text_eq}
use native.Mathlib.Decide.{ℕ_discrete}
use jarvis_ai_coo.Strings.{strip, is_space, lstrip, rstrip, is_empty, starts_with, is_infix}
use jarvis_ai_coo.Schemas.Sanitize.{
  destructive, bad_name, has_fragment, is_tool_name, tool_failure, accepted, refused, clean_tool,
  sanitize_rest, sanitize_tools,
}
use jarvis_ai_coo.Schemas.Catalogue.{Decides, sanitize_tools-Decides}
use jarvis_ai_coo.Examples.Data.{env, email}

each_tool_once :
    (sanitize_tools env (codes " email.read " ∷ codes "crm.read" ∷ email ∷ [])
      ≡ accepted (email ∷ codes "crm.read" ∷ []))
    × ((sanitize_tools env (email ∷ codes "crm.delete" ∷ []) ≡ refused destructive)
        × (sanitize_tools env (codes "Email.read" ∷ []) ≡ refused bad_name))
unfolding sanitize_tools sanitize_rest clean_tool tool_failure is_tool_name has_fragment is_infix
    starts_with is_empty strip is_space lstrip rstrip nat_eq text_eq ℕ_discrete
each_tool_once = (refl, (refl, refl))

sanitize_tools-Decides_example :
    Decides env
      (email ∷ codes "web.search" ∷ [])
      (sanitize_tools env (email ∷ codes "web.search" ∷ []))
sanitize_tools-Decides_example = sanitize_tools-Decides env (email ∷ codes "web.search" ∷ [])
