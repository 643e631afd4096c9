-- ===== src/Prelude/Members.antt =====
-- Membership through the operations on lists.
use Prim.Native.Nat.{ℕ, zero, suc}
use mathlib.Core.Path.{◌≡◌}
use mathlib.Core.Logic.{◌⊎◌, inr}
use mathlib.Core.Bool.{Bool, true}
use mathlib.Core.Option.{some}
use mathlib.Core.List.{List, [], ◌∷◌, ◌++◌}
use native.Mathlib.Omega.{arith}
use jarvis_ai_coo.Prelude.Lists.{find, where_, order_by, insert_by, take, drop, In}

module _ {A : Type 0} where
  pub find-In : (p : A → Bool) (x : A) (xs : List A) → find p xs ≡ some x → In x xs × (p x ≡ true)
  unfolding find
  find-In p x [] h = cc
  find-In p x (y ∷ ys) h = ground (arith, find-In p x ys)

  pub In-where : (p : A → Bool) (x : A) (xs : List A) → In x (where_ p xs) → In x xs × (p x ≡ true)
  unfolding where_
  In-where p x [] h = elim h [ ]
  In-where p x (y ∷ ys) h = ground (arith, In-where p x ys)

  In-insert_by :
      (key : A → ℕ) (x y : A) (ys : List A) → In x (insert_by key y ys) → (x ≡ y) ⊎ In x ys
  In-insert_by key x y [] h = h
  In-insert_by key x y (z ∷ zs) h = ground (arith, In-insert_by key x y zs)

  pub In-order_by : (key : A → ℕ) (x : A) (xs : List A) → In x (order_by key xs) → In x xs
  unfolding order_by
  In-order_by key x [] h = h
  In-order_by key x (y ∷ ys) h =
      ground (arith, In-insert_by key x y (order_by key ys) h, In-order_by key x ys)

  pub In-append : (x : A) (xs ys : List A) → In x (xs ++ ys) → In x xs ⊎ In x ys
  In-append x [] ys h = inr h
  In-append x (y ∷ xs) ys h = ground (arith, In-append x xs ys)

  pub In-take : (n : ℕ) (x : A) (xs : List A) → In x (take n xs) → In x xs
  In-take zero x xs h = elim h [ ]
  In-take (suc n) x [] h = h
  In-take (suc n) x (y ∷ ys) h = ground (arith, In-take n x ys)

  pub In-drop : (n : ℕ) (x : A) (xs : List A) → In x (drop n xs) → In x xs
  In-drop zero x xs h = h
  In-drop (suc n) x [] h = h
  In-drop (suc n) x (y ∷ ys) h = inr (In-drop n x ys h)
