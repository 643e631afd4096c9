-- ===== src/Schemas/Texts.antt =====
-- `sanitize_text` of app/schemas.py and its patterns. Its `ValueError`s are told apart by the check
-- that raises them.
pub mod Judged
use jarvis_ai_coo.Prelude.{
  Text, codes, Bool, not, ◌&&◌, Option, none, some, List, [], ◌∷◌, if◌then◌else◌,
}
use jarvis_ai_coo.Strings.{strip, is_empty}
use jarvis_ai_coo.Patterns.{
  Regex, empty, boundary, one, many, seq, alt, char, dot, space, non_space, word, word_or_quote,
  plus, optional, literal, any_of, search_in,
}
use jarvis_ai_coo.Database.{Env}

-- the expressions one behind another
abbrev pub all_of : List Regex → Regex
all_of [] = empty
all_of (r ∷ rs) = seq r (all_of rs)

-- `\b…\b`
abbrev pub whole_word : Regex → Regex
whole_word r = all_of (boundary ∷ r ∷ boundary ∷ [])

-- `(--|/\*|\*/)`
abbrev pub comment_pattern : Regex
comment_pattern = any_of (codes "--") (codes "/*" ∷ codes "*/" ∷ [])

-- `\bunion\b\s+(all\s+)?\bselect\b`
abbrev pub union_pattern : Regex
union_pattern = all_of (
    whole_word (literal (codes "union"))
    ∷ plus space
    ∷ optional (seq (literal (codes "all")) (plus space))
    ∷ whole_word (literal (codes "select"))
    ∷ [])

-- `\bselect\b.+\bfrom\b`
abbrev pub select_pattern : Regex
select_pattern =
    all_of
      (whole_word (literal (codes "select")) ∷ plus dot ∷ whole_word (literal (codes "from")) ∷ [])

-- `\b(insert|update|delete|drop|truncate|alter|grant|revoke)\b`
abbrev pub verb_pattern : Regex
verb_pattern = whole_word (
    any_of (codes "insert") (
      codes "update"
      ∷ codes "delete"
      ∷ codes "drop"
      ∷ codes "truncate"
      ∷ codes "alter"
      ∷ codes "grant"
      ∷ codes "revoke"
      ∷ []))

-- `\b(or|and)\b\s+[\w'\"]+\s*=\s*[\w'\"]+`
abbrev pub tautology_pattern : Regex
tautology_pattern = all_of (
    whole_word (any_of (codes "or") (codes "and" ∷ []))
    ∷ plus space
    ∷ plus word_or_quote
    ∷ many space
    ∷ one (char b'=')
    ∷ many space
    ∷ plus word_or_quote
    ∷ [])

-- `\b(exec(ute)?|xp_\w+|sp_\w+)\b`
abbrev pub procedure_pattern : Regex
procedure_pattern = whole_word (
    alt (seq (literal (codes "exec")) (optional (literal (codes "ute"))))
      (alt (seq (literal (codes "xp_")) (plus word)) (seq (literal (codes "sp_")) (plus word))))

-- `;\s*\S`
abbrev pub stacking_pattern : Regex
stacking_pattern = all_of (one (char b';') ∷ many space ∷ one non_space ∷ [])

-- `_SQLI_PATTERNS`
abbrev pub sqli_patterns : List Regex
sqli_patterns =
    comment_pattern ∷ union_pattern ∷ select_pattern ∷ verb_pattern ∷ tautology_pattern
    ∷ procedure_pattern ∷ stacking_pattern ∷ []

pub data TextFailure : Type 0 where
  blank : TextFailure
  forbidden : Regex → TextFailure

pub data SanitizedText : Type 0 where
  kept : Text → SanitizedText
  rejected : TextFailure → SanitizedText

-- the loop over the patterns
unfoldable pub check_patterns : Env → List Regex → Text → SanitizedText
unfolding search_in
check_patterns env [] cleaned = kept cleaned
check_patterns env (expression ∷ patterns) cleaned =
    let rest = check_patterns env patterns cleaned in
    if search_in env.is_alnum expression cleaned then rejected (forbidden expression) else rest

unfoldable pub sanitize_text : Env → Bool → Text → SanitizedText
unfolding check_patterns is_empty
sanitize_text env allow_empty value =
    let cleaned = strip value in
    if is_empty cleaned && not allow_empty
    then rejected blank
    else check_patterns env sqli_patterns cleaned
