-- ===== src/Prelude/Forall.antt =====
-- `All` through the operations on lists.
use mathlib.Core.Path.{◌≡◌, sym, subst}
use mathlib.Core.Logic.{inl, inr}
use mathlib.Core.Bool.{Bool, true, false}
use mathlib.Core.Option.{some}
use mathlib.Core.List.{List, [], ◌∷◌}
use native.Mathlib.Omega.{arith}
use jarvis_ai_coo.Prelude.Equality.{if◌then◌else◌, Bool-cases}
use jarvis_ai_coo.Prelude.Lists.{find, update, All, In}

module _ {A : Type 0} where
  pub All-map : (P Q : A → Type 0) (xs : List A) → ((x : A) → P x → Q x) → All P xs → All Q xs
  All-map P Q [] f a = tt
  All-map P Q (x ∷ xs) f a = (f x a.0, All-map P Q xs f a.1)

  pub All-find :
      (P : A → Type 0) (p : A → Bool) (xs : List A) (x : A) → All P xs → find p xs ≡ some x → P x
  unfolding find
  All-find P p [] x a h = cc
  All-find P p (y ∷ ys) x a h = elim (Bool-cases (p y)) [
    | inl hit ↦ subst P (ground arith) a.0
    | inr miss ↦ All-find P p ys x a.1 (rw miss at h)
  ]

  -- rows that are replaced, and rows that stay
  pub All-update :
      (P Q : A → Type 0) (p : A → Bool) (new : A) (xs : List A)
      → ((x : A) → P x → Q x)
      → Q new
      → All P xs
      → All Q (update p (λ _. new) xs)
  unfolding update
  All-update P Q p new [] f q a = tt
  All-update P Q p new (x ∷ xs) f q a = (row (p x), All-update P Q p new xs f q a.1)
    where
      row : (b : Bool) → Q (if b then new else x)
      row true = q
      row false = f x a.0

  pub All-In : (P : A → Type 0) (x : A) (xs : List A) → All P xs → In x xs → P x
  All-In P x [] a m = elim m [ ]
  All-In P x (y ∷ ys) a (inl e) = subst P (sym e) a.0
  All-In P x (y ∷ ys) a (inr m) = All-In P x ys a.1 m
