-- ===== src/Lifecycle.antt =====
-- app/lifecycle.py: the state machine of a skill.
use jarvis_ai_coo.Prelude.{◌≡◌, refl, Bool, true, false, List, [], ◌∷◌, Eq, contains}
use jarvis_ai_coo.Models.{SkillStatus, draft, active, disabled}

status_dec : Discrete SkillStatus
status_dec = hlevel

instance unfoldable pub status_eq : Eq SkillStatus
unfolding status_dec
status_eq = record { dec = status_dec }

-- `TRANSITIONS`: the allowed targets of each state. Every status is a key of the dictionary.
transitions : SkillStatus → List SkillStatus
transitions draft = active ∷ disabled ∷ []
transitions active = disabled ∷ []
transitions disabled = []

unfoldable pub can_transition : SkillStatus → SkillStatus → Bool
unfolding transitions
can_transition source target = contains (transitions source) target

-- The order in which a skill moves through its life.
abbrev pub stage : SkillStatus → SkillStatus → Bool
stage draft active = true
stage draft disabled = true
stage active disabled = true
stage _ _ = false

pub can_transition-eq-stage : (s t : SkillStatus) → can_transition s t ≡ stage s t
unfolding can_transition status_eq
can_transition-eq-stage draft draft = refl
can_transition-eq-stage draft active = refl
can_transition-eq-stage draft disabled = refl
can_transition-eq-stage active draft = refl
can_transition-eq-stage active active = refl
can_transition-eq-stage active disabled = refl
can_transition-eq-stage disabled draft = refl
can_transition-eq-stage disabled active = refl
can_transition-eq-stage disabled disabled = refl
