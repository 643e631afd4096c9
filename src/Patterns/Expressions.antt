-- ===== src/Patterns/Expressions.antt =====
-- Regular expressions as `re` reads them with `re.IGNORECASE`, and `Pattern.search`.
use jarvis_ai_coo.Prelude.{
  ℕ, ◌+◌, Text, Bool, false, not, ◌&&◌, ◌||◌, ◌==◌, nat_eq, leb, Option, none, some, List, [], ◌∷◌,
  ◌++◌, if◌then◌else◌,
}
use jarvis_ai_coo.Strings.{is_space, is_empty}

pub data Class : Type 0 where
  -- a character, whose case does not matter
  char : ℕ → Class
  -- `.`, `\s`, `\S`, `\w` and `[\w'"]`
  dot space non_space word word_or_quote : Class

pub data Regex : Type 0 where
  empty boundary : Regex
  one many : Class → Regex
  seq alt : Regex → Regex → Regex

-- `c+` and `r?`
abbrev pub plus : Class → Regex
plus c = seq (one c) (many c)

abbrev pub optional : Regex → Regex
optional r = alt r empty

-- a word, and words with `|` between them
abbrev pub literal : Text → Regex
literal [] = empty
literal (c ∷ s) = seq (one (char c)) (literal s)

abbrev pub any_of : Text → List Text → Regex
any_of w [] = literal w
any_of w (v ∷ ws) = alt (literal w) (any_of v ws)

-- A position in a text: the character in front of it, and what is behind it.
pub data Cursor : Type 0 where
  at : Option ℕ → Text → Cursor

abbrev pub join_map : {A : Type 0} → (A → List A) → List A → List A
join_map f [] = []
join_map f (x ∷ xs) = f x ++ join_map f xs

-- Two characters are the same but for their case. `c` is one of a pattern, in lower case: beside the
-- ASCII capital, `re` takes `İ` and `ı` for `i`, `ſ` for `s` and the Kelvin sign for `k`.
unfoldable pub same_letter : ℕ → ℕ → Bool
same_letter c x =
    x == c
    || leb b'a' c && leb c b'z' && x + 32 == c
    || c == b'i' && (x == 0x130 || x == 0x131)
    || c == b's' && x == 0x17f
    || c == b'k' && x == 0x212a

-- `is_alnum` is `str.isalnum` of one character, which goes by the tables of Unicode.
module _ (is_alnum : ℕ → Bool) where
  unfoldable pub is_word : ℕ → Bool
  is_word x = is_alnum x || x == b'_'

  unfoldable pub accepts : Class → ℕ → Bool
  unfolding same_letter is_word is_space
  accepts (char c) x = same_letter c x
  accepts dot x = not (x == 10)
  accepts space x = is_space x
  accepts non_space x = not (is_space x)
  accepts word x = is_word x
  accepts word_or_quote x = is_word x || x == 39 || x == 34

  unfoldable pub word_before : Option ℕ → Bool
  unfolding is_word
  word_before none = false
  word_before (some x) = is_word x

  unfoldable pub word_behind : Text → Bool
  unfolding is_word
  word_behind [] = false
  word_behind (x ∷ s) = is_word x

  -- `\b`
  unfoldable pub at_boundary : Option ℕ → Text → Bool
  unfolding word_before word_behind
  at_boundary b s = if word_before b then not (word_behind s) else word_behind s

  -- where a run of characters of a class may end
  unfoldable pub runs_of : Class → Option ℕ → Text → List Cursor
  unfolding accepts
  runs_of c b [] = at b [] ∷ []
  runs_of c b (x ∷ s) =
      let more = runs_of c (some x) s in at b (x ∷ s) ∷ (if accepts c x then more else [])

  unfoldable pub one_of : Class → Text → List Cursor
  unfolding accepts
  one_of c [] = []
  one_of c (x ∷ s) = if accepts c x then at (some x) s ∷ [] else []

  -- The positions at which a match from a position may end.
  unfoldable pub ends : Regex → Cursor → List Cursor
  unfolding at_boundary runs_of one_of
  ends empty p = p ∷ []
  ends boundary (at b s) = if at_boundary b s then at b s ∷ [] else []
  ends (one c) (at b s) = one_of c s
  ends (many c) (at b s) = runs_of c b s
  ends (seq r q) p = join_map (ends q) (ends r p)
  ends (alt r q) p = ends r p ++ ends q p

  -- a match that starts at a position of the text or behind it
  unfoldable pub found_from : Regex → Option ℕ → Text → Bool
  unfolding ends
  found_from r b [] = not (is_empty (ends r (at b [])))
  found_from r b (x ∷ s) = not (is_empty (ends r (at b (x ∷ s)))) || found_from r (some x) s

  -- `pattern.search(text)`
  unfoldable pub search_in : Regex → Text → Bool
  unfolding found_from
  search_in r s = found_from r none s
