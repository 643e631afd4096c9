-- ===== src/Registry/Lookup.antt =====
-- Lookups in a table that a tenant sees in part, and their results after a write.
use jarvis_ai_coo.Prelude.{
  ◌≡◌, ◌≢◌, Bool, true, none, some, List, [], ◌∷◌, find, where_, update, arith,
}
use jarvis_ai_coo.Database.{exists}

module _ {A : Type 0} where
  pub find_passes : (p : A → Bool) (xs : List A) (x : A) → find p xs ≡ some x → p x ≡ true
  unfolding find
  find_passes p [] x h = cc
  find_passes p (y ∷ ys) x h = ground (arith, find_passes p ys x)

  -- What is found among the rows that pass `q` passes `q`.
  pub find_where_passes :
      (p q : A → Bool) (xs : List A) (x : A) → find p (where_ q xs) ≡ some x → q x ≡ true
  unfolding find where_
  find_where_passes p q [] x h = cc
  find_where_passes p q (y ∷ ys) x h = ground (arith, find_where_passes p q ys x)

  pub exists_of_find :
      (p q r : A → Bool) (xs : List A) (x : A)
      → find p (where_ q xs) ≡ some x
      → r x ≡ true
      → exists r xs ≡ true
  unfolding find where_ exists
  exists_of_find p q r [] x h t = cc
  exists_of_find p q r (y ∷ ys) x h t = ground (arith, exists_of_find p q r ys x)

  -- Where one row is found, a lookup that it passes finds a row too.
  pub find_of_find :
      (p q : A → Bool) (xs : List A) (x : A) → find p xs ≡ some x → q x ≡ true → find q xs ≢ none
  unfolding find
  find_of_find p q [] x h t = cc
  find_of_find p q (y ∷ ys) x h t = ground (arith, find_of_find p q ys x)

  -- A row that replaces one that was found is found in its stead.
  pub find_where-update :
      (p q : A → Bool) (new : A) (xs : List A) (old : A)
      → find p (where_ q xs) ≡ some old
      → p new ≡ true
      → q new ≡ true
      → find p (where_ q (update p (λ _. new) xs)) ≡ some new
  unfolding find where_ update
  find_where-update p q new [] old h pn qn = cc
  find_where-update p q new (y ∷ ys) old h pn qn = ground (arith, find_where-update p q new ys old)
