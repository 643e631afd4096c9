-- ===== src/Requests/History/Table.antt =====
-- A table that is only added to: `ys` is `xs` with rows in front.
use jarvis_ai_coo.Prelude.{List, ◌∷◌}

pub data Grows {A : Type 0} (xs : List A) : List A → Type 0 where
  same : Grows xs xs
  more : (y : A) {ys : List A} → Grows xs ys → Grows xs (y ∷ ys)

pub Grows-trans : {A : Type 0} {xs ys zs : List A} → Grows xs ys → Grows ys zs → Grows xs zs
Grows-trans p same = p
Grows-trans p (more y q) = more y (Grows-trans p q)
