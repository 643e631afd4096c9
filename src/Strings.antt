-- ===== src/Strings.antt =====
-- The `str` methods that the program calls on request data.
pub mod Strips
use jarvis_ai_coo.Prelude.{
  ℕ, Text, Bool, true, false, ◌&&◌, ◌||◌, ◌==◌, nat_eq, leb, ltb, List, [], ◌∷◌, if◌then◌else◌,
}

-- `str.isspace` of one character
unfoldable pub is_space : ℕ → Bool
is_space c =
    leb 9 c && leb c 13
    || leb 28 c && leb c 32
    || c == 0x85
    || c == 0xa0
    || c == 0x1680
    || leb 0x2000 c && leb c 0x200a
    || c == 0x2028
    || c == 0x2029
    || c == 0x202f
    || c == 0x205f
    || c == 0x3000

unfoldable pub lstrip : Text → Text
unfolding is_space
lstrip [] = []
lstrip (c ∷ s) = if is_space c then lstrip s else c ∷ s

unfoldable pub keep_unless_blank : ℕ → Text → Text
unfolding is_space
keep_unless_blank c [] = if is_space c then [] else c ∷ []
keep_unless_blank c (d ∷ s) = c ∷ d ∷ s

unfoldable pub rstrip : Text → Text
unfolding keep_unless_blank
rstrip [] = []
rstrip (c ∷ s) = keep_unless_blank c (rstrip s)

unfoldable pub strip : Text → Text
unfolding lstrip rstrip
strip s = lstrip (rstrip s)

unfoldable pub is_empty : {A : Type 0} → List A → Bool
is_empty [] = true
is_empty (_ ∷ _) = false

-- the order of `str` values, by code point
unfoldable pub text_lt : Text → Text → Bool
text_lt s [] = false
text_lt [] (d ∷ t) = true
text_lt (c ∷ s) (d ∷ t) = ltb c d || (if c == d then text_lt s t else false)

-- `t.startswith(s)`
unfoldable pub starts_with : Text → Text → Bool
starts_with [] t = true
starts_with (c ∷ s) [] = false
starts_with (c ∷ s) (d ∷ t) = c == d && starts_with s t

-- `s in t`
unfoldable pub is_infix : Text → Text → Bool
unfolding starts_with
is_infix s [] = is_empty s
is_infix s (d ∷ t) = starts_with s (d ∷ t) || is_infix s t
