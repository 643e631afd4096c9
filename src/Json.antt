-- ===== src/Json.antt =====
-- `json.dumps(payload, sort_keys=True, separators=(",", ":"))`, as `compute_version_hash` calls it,
-- on dictionaries of texts, numbers, booleans and lists of texts. A text is its code points; the
-- output is ASCII, so that its UTF-8 bytes are its code points.
pub mod Unescape
pub mod Splits
pub mod Entries
use jarvis_ai_coo.Prelude.{
  ℕ, zero, suc, ◌+◌, ◌-◌, ◌/◌, ◌%◌, Text, codes, true, false, ◌||◌, ◌==◌, nat_eq, ltb, List, [],
  ◌∷◌, ◌++◌, if◌then◌else◌,
}
use jarvis_ai_coo.Strings.{text_lt}
use jarvis_ai_coo.Models.{Value, str, int, bool, strs, null}

unfoldable pub hex_digit : ℕ → ℕ
hex_digit d = if ltb d 10 then 48 + d else 87 + d

-- `'\\u{0:04x}'.format(n)`
unfoldable pub unicode_escape : ℕ → Text
unfolding hex_digit
unicode_escape n =
    b'\\'
    ∷ b'u'
    ∷ hex_digit (n / 4096 % 16)
    ∷ hex_digit (n / 256 % 16)
    ∷ hex_digit (n / 16 % 16)
    ∷ hex_digit (n % 16)
    ∷ []

-- One character inside quotes, under `ensure_ascii`.
unfoldable pub escape : ℕ → Text
unfolding unicode_escape
escape c =
    if c == 34
    then 92 ∷ 34 ∷ []
    else if c == 92
    then 92 ∷ 92 ∷ []
    else if c == 10
    then 92 ∷ 110 ∷ []
    else if c == 13
    then 92 ∷ 114 ∷ []
    else if c == 9
    then 92 ∷ 116 ∷ []
    else if c == 8
    then 92 ∷ 98 ∷ []
    else if c == 12
    then 92 ∷ 102 ∷ []
    else if ltb c 32 || ltb 126 c
    then (if ltb c 65536
        then unicode_escape c
        else unicode_escape (55296 + (c - 65536) / 1024)
          ++ unicode_escape (56320 + (c - 65536) % 1024))
    else c ∷ []

unfoldable pub escape_all : Text → Text
unfolding escape
escape_all [] = []
escape_all (c ∷ s) = escape c ++ escape_all s

unfoldable pub quote : Text → Text
unfolding escape_all
quote s = 34 ∷ (escape_all s ++ 34 ∷ [])

-- The decimal digits; `n + 1` rounds are enough.
unfoldable pub decimal_within : ℕ → ℕ → Text
decimal_within zero n = []
decimal_within (suc fuel) n =
    let front = decimal_within fuel (n / 10) in
    if ltb n 10 then (48 + n) ∷ [] else front ++ (48 + n % 10) ∷ []

unfoldable pub decimal : ℕ → Text
unfolding decimal_within
decimal n = decimal_within (n + 1) n

unfoldable pub quote_rest : List Text → Text
unfolding quote
quote_rest [] = b']' ∷ []
quote_rest (t ∷ ts) = b',' ∷ (quote t ++ quote_rest ts)

unfoldable pub quote_list : List Text → Text
unfolding quote_rest
quote_list [] = codes "[]"
quote_list (t ∷ ts) = b'[' ∷ (quote t ++ quote_rest ts)

unfoldable pub dump_value : Value → Text
unfolding quote decimal quote_list
dump_value (str t) = quote t
dump_value (int n) = decimal n
dump_value (bool true) = codes "true"
dump_value (bool false) = codes "false"
dump_value (strs ts) = quote_list ts
dump_value null = codes "null"

-- `sorted` of the items: keys by code point
unfoldable pub insert_key : Text × Value → List (Text × Value) → List (Text × Value)
unfolding text_lt
insert_key e [] = e ∷ []
insert_key e (f ∷ d) = if text_lt f.0 e.0 then f ∷ insert_key e d else e ∷ f ∷ d

unfoldable pub sort_keys : List (Text × Value) → List (Text × Value)
unfolding insert_key
sort_keys [] = []
sort_keys (e ∷ d) = insert_key e (sort_keys d)

unfoldable pub dump_entry : Text × Value → Text
unfolding dump_value
dump_entry (k, v) = quote k ++ (b':' ∷ dump_value v)

unfoldable pub dump_rest : List (Text × Value) → Text
unfolding dump_entry
dump_rest [] = b'}' ∷ []
dump_rest (e ∷ d) = b',' ∷ (dump_entry e ++ dump_rest d)

unfoldable pub dump_object : List (Text × Value) → Text
unfolding dump_rest
dump_object [] = codes "{}"
dump_object (e ∷ d) = b'{' ∷ (dump_entry e ++ dump_rest d)

unfoldable pub dumps : List (Text × Value) → Text
unfolding sort_keys dump_object
dumps payload = dump_object (sort_keys payload)
