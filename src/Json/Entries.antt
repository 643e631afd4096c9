-- ===== src/Json/Entries.antt =====
-- Reading back the entries of a dictionary whose keys are known.
use jarvis_ai_coo.Prelude.{ℕ, Text, ◌≡◌, refl, sym, ap, ◌∙◌, List, [], ◌∷◌, ◌++◌, All}
use jarvis_ai_coo.Models.{Value, str, int, strs}
use jarvis_ai_coo.Json.{quote, quote_list, decimal, dump_value, dump_entry, dump_rest, dump_object}
use jarvis_ai_coo.Json.Unescape.{append_assoc}
use jarvis_ai_coo.Json.Splits.{IsUnicode, tails, quote-splits, quote_list-splits, decimal-splits}

same_start : (s r r' : Text) → s ++ r ≡ s ++ r' → r ≡ r'
same_start [] r r' e = e
same_start (c ∷ s) r r' e = same_start s r r' (tails e)

str_dump : (t : Text) → dump_value (str t) ≡ quote t
unfolding dump_value
str_dump t = refl

strs_dump : (ts : List Text) → dump_value (strs ts) ≡ quote_list ts
unfolding dump_value
strs_dump ts = refl

int_dump : (n : ℕ) → dump_value (int n) ≡ decimal n
unfolding dump_value
int_dump n = refl

entry_opens :
    (k : Text) (v : Value) (r : Text)
    → dump_entry (k, v) ++ r ≡ quote k ++ (58 ∷ (dump_value v ++ r))
unfolding dump_entry
entry_opens k v r = append_assoc (quote k) (58 ∷ dump_value v) r

rest_opens :
    (e : Text × Value) (d : List (Text × Value))
    → dump_rest (e ∷ d) ≡ 44 ∷ (dump_entry e ++ dump_rest d)
unfolding dump_rest
rest_opens e d = refl

rest_ends : dump_rest [] ≡ 125 ∷ []
unfolding dump_rest
rest_ends = refl

object_opens :
    (e : Text × Value) (d : List (Text × Value))
    → dump_object (e ∷ d) ≡ 123 ∷ (dump_entry e ++ dump_rest d)
unfolding dump_object
object_opens e d = refl

-- two entries of one key
values_behind :
    (k : Text) (v w : Value) (r r' : Text)
    → dump_entry (k, v) ++ r ≡ dump_entry (k, w) ++ r'
    → dump_value v ++ r ≡ dump_value w ++ r'
values_behind k v w r r' e =
    tails (same_start (quote k) _ _ (sym (entry_opens k v r) ∙ (e ∙ entry_opens k w r')))

module _ (k : Text) (d d' : List (Text × Value)) where
  pub object_str-splits :
      (a b : Text)
      → IsUnicode a
      → IsUnicode b
      → dump_object ((k, str a) ∷ d) ≡ dump_object ((k, str b) ∷ d')
      → (a ≡ b) × (dump_rest d ≡ dump_rest d')
  object_str-splits a b ha hb e =
      let values =
        values_behind k (str a) (str b) (dump_rest d) (dump_rest d')
          (tails (sym (object_opens (k, str a) d) ∙ (e ∙ object_opens (k, str b) d'))) in
      quote-splits a b (dump_rest d) (dump_rest d') ha hb (
        sym (ap (λ t. t ++ dump_rest d) (str_dump a))
        ∙ (values ∙ ap (λ t. t ++ dump_rest d') (str_dump b)))

  rest_values :
      (v w : Value)
      → dump_rest ((k, v) ∷ d) ≡ dump_rest ((k, w) ∷ d')
      → dump_value v ++ dump_rest d ≡ dump_value w ++ dump_rest d'
  rest_values v w e =
      values_behind k v w (dump_rest d) (dump_rest d')
        (tails (sym (rest_opens (k, v) d) ∙ (e ∙ rest_opens (k, w) d')))

  pub rest_str-splits :
      (a b : Text)
      → IsUnicode a
      → IsUnicode b
      → dump_rest ((k, str a) ∷ d) ≡ dump_rest ((k, str b) ∷ d')
      → (a ≡ b) × (dump_rest d ≡ dump_rest d')
  rest_str-splits a b ha hb e = quote-splits a b (dump_rest d) (dump_rest d') ha hb (
      sym (ap (λ t. t ++ dump_rest d) (str_dump a))
      ∙ (rest_values (str a) (str b) e ∙ ap (λ t. t ++ dump_rest d') (str_dump b)))

  pub rest_strs-splits :
      (ts us : List Text)
      → All IsUnicode ts
      → All IsUnicode us
      → dump_rest ((k, strs ts) ∷ d) ≡ dump_rest ((k, strs us) ∷ d')
      → (ts ≡ us) × (dump_rest d ≡ dump_rest d')
  rest_strs-splits ts us ha hb e = quote_list-splits ts us (dump_rest d) (dump_rest d') ha hb (
      sym (ap (λ t. t ++ dump_rest d) (strs_dump ts))
      ∙ (rest_values (strs ts) (strs us) e ∙ ap (λ t. t ++ dump_rest d') (strs_dump us)))

pub last_int-splits :
    (k : Text) (n m : ℕ) → dump_rest ((k, int n) ∷ []) ≡ dump_rest ((k, int m) ∷ []) → n ≡ m
last_int-splits k n m e =
    decimal-splits n m 125 (sym (ends n) ∙ (rest_values k [] [] (int n) (int m) e ∙ ends m))
  where
    ends : (i : ℕ) → dump_value (int i) ++ dump_rest [] ≡ decimal i ++ 125 ∷ []
    ends i = ap (λ t. t ++ dump_rest []) (int_dump i) ∙ ap (λ t. decimal i ++ t) rest_ends
