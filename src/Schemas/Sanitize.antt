-- ===== src/Schemas/Sanitize.antt =====
-- `sanitize_tools` of app/schemas.py. Its `ValueError`s are told apart by the check that raises them.
use jarvis_ai_coo.Prelude.{
  ℕ, Text, codes, Bool, true, false, not, ◌&&◌, ◌||◌, ◌==◌, nat_eq, text_eq, Option, none, some,
  List, [], ◌∷◌, ◌++◌, length, contains, leb, ltb, if◌then◌else◌,
}
use jarvis_ai_coo.Strings.{strip, is_infix}
use jarvis_ai_coo.Database.{Env}

-- `ALLOWED_TOOLS`
abbrev pub allowed_tools : List Text
allowed_tools =
    codes "calendar.read"
    ∷ codes "calendar.write"
    ∷ codes "email.read"
    ∷ codes "email.send"
    ∷ codes "tasks.read"
    ∷ codes "tasks.write"
    ∷ codes "contacts.read"
    ∷ codes "documents.read"
    ∷ codes "documents.write"
    ∷ codes "crm.read"
    ∷ codes "meetings.read"
    ∷ codes "meetings.write"
    ∷ []

-- `MAX_TOOLS_PER_SKILL`
abbrev pub max_tools_per_skill : ℕ
max_tools_per_skill = 16

-- `_DANGEROUS_TOOL_FRAGMENTS`
abbrev pub dangerous_tool_fragments : List Text
dangerous_tool_fragments =
    codes "delete"
    ∷ codes "drop"
    ∷ codes "truncate"
    ∷ codes "exec"
    ∷ codes "shell"
    ∷ codes "admin"
    ∷ codes "root"
    ∷ codes "sudo"
    ∷ codes "wipe"
    ∷ codes "destroy"
    ∷ codes "grant"
    ∷ codes "revoke"
    ∷ codes "backup"
    ∷ codes "restore"
    ∷ codes "migrate"
    ∷ codes "database"
    ∷ []

-- The classes of `_TOOL_NAME_RE`: `[a-z]` and `[a-z0-9]`
abbrev is_lower : ℕ → Bool
is_lower c = leb b'a' c && leb c b'z'

abbrev is_alphanumeric : ℕ → Bool
is_alphanumeric c = is_lower c || leb b'0' c && leb c b'9'

-- `_TOOL_NAME_RE` from within a later segment, `[a-z0-9_]*(\.…)*$`, and from its first character. The
-- `$` also matches in front of a final line feed.
name_ends : Text → Bool
name_ends [] = true
name_ends (c ∷ []) = is_alphanumeric c || c == b'_' || c == 10
name_ends (c ∷ d ∷ s) =
    if c == b'.'
    then is_lower d && name_ends s
    else (is_alphanumeric c || c == b'_') && name_ends (d ∷ s)

-- in the first segment
first_segment : Text → Bool
unfolding name_ends
first_segment [] = false
first_segment (c ∷ []) = false
first_segment (c ∷ d ∷ s) =
    if c == b'.' then is_lower d && name_ends s else is_alphanumeric c && first_segment (d ∷ s)

-- `_TOOL_NAME_RE.match(tool)`
unfoldable pub is_tool_name : Text → Bool
unfolding first_segment
is_tool_name [] = false
is_tool_name (c ∷ s) = is_lower c && first_segment s

-- The checks that may raise, and the one of the number of tools.
pub data ToolFailure : Type 0 where
  bad_name destructive not_in_catalogue too_many : ToolFailure

unfoldable pub has_fragment : List Text → Text → Bool
unfolding is_infix
has_fragment [] tool = false
has_fragment (fragment ∷ fragments) tool = is_infix fragment tool || has_fragment fragments tool

-- the three checks of one tool
unfoldable pub tool_failure : Text → Option ToolFailure
unfolding is_tool_name has_fragment
tool_failure tool =
    if not (is_tool_name tool)
    then some bad_name
    else if has_fragment dangerous_tool_fragments tool
    then some destructive
    else if not (contains allowed_tools tool)
    then some not_in_catalogue
    else none

pub data Sanitized : Type 0 where
  accepted : List Text → Sanitized
  refused : ToolFailure → Sanitized

-- `raw.strip().lower()`
unfoldable pub clean_tool : Env → Text → Text
clean_tool env raw = env.lower (strip raw)

-- The loop, with `cleaned`; `seen` holds the same tools.
unfoldable pub sanitize_rest : Env → List Text → List Text → Sanitized
unfolding tool_failure
sanitize_rest env cleaned [] =
    if ltb max_tools_per_skill (length cleaned) then refused too_many else accepted cleaned
sanitize_rest env cleaned (raw ∷ values) =
    let tool = clean_tool env raw in
    let known = sanitize_rest env cleaned values in
    let more = sanitize_rest env (cleaned ++ tool ∷ []) values in
    elim (tool_failure tool) [
      | some failure ↦ refused failure
      | none ↦ if contains cleaned tool then known else more
    ]

unfoldable pub sanitize_tools : Env → List Text → Sanitized
unfolding sanitize_rest
sanitize_tools env values = sanitize_rest env [] values
