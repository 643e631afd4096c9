-- ===== src/Migrations/Undo/Steps.antt =====
-- Each operation with the one that undoes it.
use jarvis_ai_coo.Prelude.{
  Text, ◌≡◌, refl, ap, ◌∙◌, subst, Bool, true, false, not, ◌&&◌, ◌==◌, text_eq, Option, none, some,
  List, [], ◌∷◌, ◌++◌, find, where_, update, contains, arith, inl, inr, Bool-cases,
}
use jarvis_ai_coo.Database.{exists}
use jarvis_ai_coo.Migrations.Tables.{
  Column, Constraint, Index, Table, Schema, Operation, create_table, drop_table, create_index,
  drop_index, create_type, drop_type, guard, without, has_table, has_index, is_named, on_table,
  add_index, remove_index, table_with, run, run_all,
}

-- Wherever the first operations succeed, the second ones lead back.
abbrev pub Undone : List Operation → List Operation → Type 0
Undone ups downs = (s s' : Schema) → run_all ups s ≡ some s' → run_all downs s' ≡ some s

pub some_of : {A : Type 0} {a b : A} → some a ≡ some b → a ≡ b
some_of e = ground arith

pub run_all-append :
    (a b : List Operation) (s m : Schema) → run_all a s ≡ some m → run_all (a ++ b) s ≡ run_all b m
unfolding run_all
run_all-append [] b s m h = ap (run_all b) (some_of h)
run_all-append (op ∷ a) b s m h = through (run op s) (λ t k. run_all-append a b t m k) h
  where
    through :
        (o : Option Schema)
        → ((t : Schema) → run_all a t ≡ some m → run_all (a ++ b) t ≡ run_all b m)
        → elim o [ none ↦ none | some s' ↦ run_all a s' ] ≡ some m
        → elim o [ none ↦ none | some s' ↦ run_all (a ++ b) s' ] ≡ run_all b m
    through none onward h = cc
    through (some s') onward h = onward s' h

pub run_all-split :
    (a b : List Operation) (s s' : Schema)
    → run_all (a ++ b) s ≡ some s'
    → (m : Schema) × (run_all a s ≡ some m) × (run_all b m ≡ some s')
unfolding run_all
run_all-split [] b s s' h = (s, refl, h)
run_all-split (op ∷ a) b s s' h = through (run op s) (λ t k. run_all-split a b t s' k) h
  where
    through :
        (o : Option Schema)
        → ((t : Schema)
            → run_all (a ++ b) t ≡ some s'
            → (m : Schema) × (run_all a t ≡ some m) × (run_all b m ≡ some s'))
        → elim o [ none ↦ none | some t ↦ run_all (a ++ b) t ] ≡ some s'
        → (m : Schema) × (elim o [ none ↦ none | some t ↦ run_all a t ] ≡ some m)
          × (run_all b m ≡ some s')
    through none onward h = cc
    through (some t) onward h = onward t h

pub undone-append :
    (a a' b b' : List Operation) → Undone a a' → Undone b b' → Undone (a ++ b) (b' ++ a')
undone-append a a' b b' ua ub s s' h =
    let (m, first, second) = run_all-split a b s s' h in
    run_all-append b' a' s' m (ub m s' second) ∙ ua s m first

pub single_step : (op : Operation) (s t : Schema) → run op s ≡ some t → run_all (op ∷ []) s ≡ some t
unfolding run_all
single_step op s t h = ap (λ (o : Option Schema). elim o [ none ↦ none | some u ↦ some u ]) h

pub single_result :
    (op : Operation) (s t : Schema) → run_all (op ∷ []) s ≡ some t → run op s ≡ some t
unfolding run_all
single_result op s t h = by_result (run op s) h
  where
    by_result : (o : Option Schema) → elim o [ none ↦ none | some u ↦ some u ] ≡ some t → o ≡ some t
    by_result none h = cc
    by_result (some u) h = h

pub one_step :
    (op op' : Operation)
    → ((s s' : Schema) → run op s ≡ some s' → run op' s' ≡ some s)
    → Undone (op ∷ []) (op' ∷ [])
unfolding run_all
one_step op op' back s s' h = by_result (run op s) refl h
  where
    by_result :
        (o : Option Schema)
        → run op s ≡ o
        → elim o [ none ↦ none | some t ↦ some t ] ≡ some s'
        → elim (run op' s') [ none ↦ none | some t ↦ some t ] ≡ some s
    by_result none is h = cc
    by_result (some t) is h = rw (back s s' (is ∙ h)) refl

pub guarded : {A : Type 0} (b : Bool) (a a' : A) → guard b a ≡ some a' → (b ≡ true) × (a ≡ a')
guarded true a a' h = (refl, some_of h)
guarded false a a' h = cc

module _ {A : Type 0} where
  pub where_absent :
      (p : A → Bool) (xs : List A) → exists p xs ≡ false → where_ (λ x. not (p x)) xs ≡ xs
  unfolding exists find where_
  where_absent p [] h = refl
  where_absent p (x ∷ xs) h = ground (arith, where_absent p xs)

  -- an update, and the one that takes it back
  pub update_back :
      (p q : A → Bool) (f g : A → A) (xs : List A)
      → ((x : A) → p x ≡ true → q x ≡ false → (p (f x) ≡ true) × (g (f x) ≡ x))
      → exists q xs ≡ false
      → update p g (update p f xs) ≡ xs
  unfolding exists find update
  update_back p q f g [] back h = refl
  update_back p q f g (x ∷ xs) back h = elim (Bool-cases (p x)) [
    | inl hit ↦
        let (still, is) = back x hit (ground arith) in
        rw (hit, still, is) (ap (λ ys. x ∷ ys) (update_back p q f g xs back (ground arith)))
    | inr miss ↦ rw (miss, miss) (ap (λ ys. x ∷ ys) (update_back p q f g xs back (ground arith)))
  ]

  exists_update :
      (p r : A → Bool) (f : A → A) (xs : List A)
      → ((x : A) → p x ≡ true → r (f x) ≡ true)
      → exists p xs ≡ true
      → exists r (update p f xs) ≡ true
  unfolding exists find update
  exists_update p r f [] good h = cc
  exists_update p r f (x ∷ xs) good h = elim (Bool-cases (p x)) [
    | inl hit ↦ ground (arith, good x hit)
    | inr miss ↦ ground (arith, exists_update p r f xs good)
  ]

pub self_eq : (a : Text) → (a == a) ≡ true
self_eq a = ground arith

-- what a guarded step and the one behind it lead to
pub guarded_back :
    {A : Type 0} (b : Bool) (m s' s : A) (op' : A → Option A)
    → guard b m ≡ some s'
    → (b ≡ true → op' m ≡ some s)
    → op' s' ≡ some s
guarded_back b m s' s op' h back =
    let (true_b, is) = guarded b m s' h in subst (λ x. op' x ≡ some s) is (back true_b)

unset : (b : Bool) → not b ≡ true → b ≡ false
unset b h = ground arith

-- a table that was not there
new_table :
    (t : Table) (ts : List Table)
    → has_table t.name ts ≡ false
    → (has_table t.name (t ∷ ts) ≡ true) × (where_ (λ u. not (is_named t.name u)) (t ∷ ts) ≡ ts)
unfolding exists find where_
new_table t ts free =
    (ground arith, ground (arith, where_absent (is_named t.name) ts free, self_eq t.name))

pub create_table-undone :
    (name : Text) (columns : List Column) (constraints : List Constraint)
    → Undone (create_table name columns constraints ∷ []) (drop_table name ∷ [])
unfolding run
create_table-undone name columns constraints = one_step _ _ λ s s' h.
    guarded_back _ _ s' s (run (drop_table name)) h λ free.
      let (there, back) =
        new_table
          (record {
            name = name;
            columns = columns;
            constraints = constraints;
            indexes = [];
            triggers = [];
          })
          s.tables (unset (has_table name s.tables) free) in
      rw there (ap (λ ts. some (record s { tables = ts })) back)

-- a change of the tables of a name, and the guarded one that takes it back
module _ (name : Text) (q r : Table → Bool) (f g : Table → Table) (s : Schema)
    (change : (t : Table)
      → is_named name t ≡ true
      → q t ≡ false
      → (is_named name (f t) ≡ true) × (r (f t) ≡ true) × (g (f t) ≡ t)) where
  back_there :
      exists q s.tables ≡ false
      → update (is_named name) g (update (is_named name) f s.tables) ≡ s.tables
  back_there new =
      update_back (is_named name) q f g s.tables
        (λ t named fresh. let (still, _, same) = change t named fresh in (still, same)) new

  changed_tables :
      (ts : List Table)
      → has_table name ts ≡ true
      → exists q ts ≡ false
      → exists (λ t. is_named name t && r t) (update (is_named name) f ts) ≡ true
  unfolding exists find update
  changed_tables [] h new = cc
  changed_tables (t ∷ ts) h new = elim (Bool-cases (is_named name t)) [
    | inl hit ↦ let (still, is, _) = change t hit (ground arith) in ground (arith, still, is)
    | inr miss ↦ ground (arith, changed_tables ts)
  ]

  pub taken_back :
      has_table name s.tables ≡ true
      → exists q s.tables ≡ false
      → guard (table_with name r (on_table name f s)) (on_table name g (on_table name f s)) ≡ some s
  taken_back there new =
      rw (changed_tables s.tables there new)
        (ap (λ ts. some (record s { tables = ts })) (back_there new))

pub both_guards : (a b : Bool) → (a && not b) ≡ true → (a ≡ true) × (b ≡ false)
both_guards a b h = (ground arith, ground arith)

index_back :
    (i : Index) (is : List Index)
    → exists (λ j. j.name == i.name) is ≡ false
    → where_ (λ j. not (j.name == i.name)) (i ∷ is) ≡ is
unfolding where_
index_back i is free = ground (arith, where_absent (λ j. j.name == i.name) is free, self_eq i.name)

index_there : (i : Index) (is : List Index) → exists (λ j. j.name == i.name) (i ∷ is) ≡ true
unfolding exists find
index_there i is = ground arith

pub create_index-undone :
    (i : Index) → Undone (create_index i ∷ []) (drop_index i.name i.table ∷ [])
unfolding run
create_index-undone i = one_step _ _ λ s s' h.
    guarded_back _ _ s' s (run (drop_index i.name i.table)) h λ free.
      let (there, new) = both_guards _ _ free in
      taken_back i.table (has_index i.name) (has_index i.name) (add_index i) (remove_index i.name) s
        (λ t named fresh. (
          named,
          index_there i t.indexes,
          ap (λ is. record t { indexes = is }) (index_back i t.indexes fresh),
        ))
        there new

pub column_back :
    (c : Column) (cs : List Column)
    → exists (λ d. d.name == c.name) cs ≡ false
    → where_ (λ d. not (d.name == c.name)) (c ∷ cs) ≡ cs
unfolding where_
column_back c cs free = ground (arith, where_absent (λ d. d.name == c.name) cs free, self_eq c.name)

pub column_there : (c : Column) (cs : List Column) → exists (λ d. d.name == c.name) (c ∷ cs) ≡ true
unfolding exists find
column_there c cs = ground arith

pub text_back :
    (name : Text) (ts : List Text) → contains ts name ≡ false → without name (name ∷ ts) ≡ ts
unfolding where_
text_back name [] h = ground (arith, self_eq name)
text_back name (t ∷ ts) h = ground (arith, text_back name ts, self_eq name)

text_there : (name : Text) (ts : List Text) → contains (name ∷ ts) name ≡ true
text_there name ts = ground (arith, self_eq name)

pub create_type-undone : (name : Text) → Undone (create_type name ∷ []) (drop_type name ∷ [])
unfolding run
create_type-undone name = one_step _ _ λ s s' h.
    guarded_back _ _ s' s (run (drop_type name)) h λ free. rw (text_there name s.types) (
      ap (λ ts. some (record s { types = ts }))
        (text_back name s.types (unset (contains s.types name) free)))
