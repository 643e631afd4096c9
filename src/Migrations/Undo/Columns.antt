-- ===== src/Migrations/Undo/Columns.antt =====
-- Changes of columns, and of triggers, with what undoes them.
use jarvis_ai_coo.Prelude.{
  Text, ◌≡◌, refl, sym, ap, ◌∙◌, subst, Bool, true, false, ◌&&◌, ◌==◌, text_eq, Option, none, some,
  List, [], ◌∷◌, find, where_, update, contains, All, arith, inl, inr, Bool-cases,
}
use jarvis_ai_coo.Database.{exists}
use jarvis_ai_coo.Migrations.Tables.{
  ColumnType, Column, Table, Schema, add_column, drop_column, set_not_null, alter_type,
  create_trigger, drop_trigger_if_exists, create_or_replace_function, drop_function_if_exists,
  update_rows, guard, without, has_column, is_named, on_table, on_column, put_column, remove_column,
  add_trigger, remove_trigger, not_null, retype, table_with, run, run_all,
}
use jarvis_ai_coo.Migrations.Undo.Steps.{
  Undone, single_step, one_step, guarded_back, update_back, taken_back, both_guards, column_back,
  column_there, text_back, self_eq, some_of,
}

module _ {A : Type 0} where
  update_absent :
      (p : A → Bool) (f : A → A) (xs : List A) → exists p xs ≡ false → update p f xs ≡ xs
  unfolding exists find update
  update_absent p f [] h = refl
  update_absent p f (x ∷ xs) h = ground (arith, update_absent p f xs)

  update-update :
      (p : A → Bool) (f g : A → A) (xs : List A)
      → ((x : A) → p x ≡ true → p (f x) ≡ true)
      → update p g (update p f xs) ≡ update p (λ x. g (f x)) xs
  unfolding update
  update-update p f g [] still = refl
  update-update p f g (x ∷ xs) still = elim (Bool-cases (p x)) [
    | inl hit ↦ rw (hit, still x hit) (ap (λ ys. g (f x) ∷ ys) (update-update p f g xs still))
    | inr miss ↦ rw (miss, miss) (ap (λ ys. x ∷ ys) (update-update p f g xs still))
  ]

  -- an update that is taken back by what holds of the rows
  update_restores :
      (P : A → Type 0) (p : A → Bool) (f g : A → A) (xs : List A)
      → ((x : A) → P x → p x ≡ true → (p (f x) ≡ true) × (g (f x) ≡ x))
      → All P xs
      → update p g (update p f xs) ≡ xs
  unfolding update
  update_restores P p f g [] back a = refl
  update_restores P p f g (x ∷ xs) back (h, a) = elim (Bool-cases (p x)) [
    | inl hit ↦
        let (still, is) = back x h hit in
        rw (hit, still, is) (ap (λ ys. x ∷ ys) (update_restores P p f g xs back a))
    | inr miss ↦ rw (miss, miss) (ap (λ ys. x ∷ ys) (update_restores P p f g xs back a))
  ]

  exists_kept :
      (p r : A → Bool) (f : A → A) (xs : List A)
      → ((x : A) → p x ≡ true → r x ≡ true → r (f x) ≡ true)
      → exists r xs ≡ true
      → exists r (update p f xs) ≡ true
  unfolding exists find update
  exists_kept p r f [] good h = cc
  exists_kept p r f (x ∷ xs) good h = elim (Bool-cases (r x)) [
    | inl hit ↦ ground (arith, good x)
    | inr miss ↦ ground (arith, exists_kept p r f xs good)
  ]

-- `ADD COLUMN` that may be null, its values, and `NOT NULL`
fresh_column :
    (c : Column) (t : Table)
    → has_column c.name t ≡ false
    → (has_column c.name (on_column c.name not_null (put_column c t)) ≡ true)
      × (remove_column c.name (on_column c.name not_null (put_column c t)) ≡ t)
unfolding update
fresh_column c t free =
    rw (self_eq c.name, update_absent (λ d. d.name == c.name) not_null t.columns free)
      (
        column_there (not_null c) t.columns,
        ap (λ cs. record t { columns = cs }) (column_back (not_null c) t.columns free),
      )

absent_column :
    (name : Text) (p : Table → Bool) (t : Table)
    → is_named name t ≡ true
    → (is_named name t && p t) ≡ false
    → p t ≡ false
absent_column name p t h k = ground arith

chain_guard :
    (b : Bool) (m s' : Schema) (next : Schema → Option Schema)
    → elim (guard b m) [ none ↦ none | some t ↦ next t ] ≡ some s'
    → (b ≡ true) × (next m ≡ some s')
chain_guard true m s' next h = (refl, h)
chain_guard false m s' next h = cc

pub add_column-undone :
    (table : Text) (c : Column)
    → Undone
        (add_column table c ∷ update_rows ∷ set_not_null table c.name ∷ [])
        (drop_column table c.name ∷ [])
unfolding run run_all
add_column-undone table c s s' h =
    let (free, second) = chain_guard _ _ s' _ h in
    let one : Schema = on_table table (put_column c) s in
    let (_, is) =
      chain_guard (table_with table (has_column c.name) one)
        (on_table table (on_column c.name not_null) one) s' (λ u. some u) second in
    let (there, new) = both_guards _ _ free in
    let once : on_table table (on_column c.name not_null) (on_table table (put_column c) s)
        ≡ on_table table (λ t. on_column c.name not_null (put_column c t)) s =
      ap (λ ts. record s { tables = ts })
        (update-update (is_named table) (put_column c) (on_column c.name not_null) s.tables
          (λ t named. named)) in
    subst (λ u. run_all (drop_column table c.name ∷ []) u ≡ some s) (sym once ∙ some_of is)
      (single_step (drop_column table c.name) _ s (
        taken_back table (λ t. is_named table t && has_column c.name t) (has_column c.name)
          (λ t. on_column c.name not_null (put_column c t)) (remove_column c.name) s
          (λ t named fresh.
            let (put, back) =
              fresh_column c t (absent_column table (has_column c.name) t named fresh) in
            (named, put, back))
          there new))

-- the columns of a name, in the tables of a name, have the type
abbrev pub HasType : Text → Text → ColumnType → Schema → Type 0
HasType table column type s =
    All
      (λ (t : Table).
        is_named table t ≡ true
        → All (λ (c : Column). (c.name == column) ≡ true → c.type ≡ type) t.columns)
      s.tables

module _ (table column : Text) (old new : ColumnType) where
  retyped_back :
      (t : Table)
      → All (λ (c : Column). (c.name == column) ≡ true → c.type ≡ old) t.columns
      → on_column column (retype old) (on_column column (retype new) t) ≡ t
  retyped_back t typed =
      ap (λ cs. record t { columns = cs })
        (update_restores (λ c. (c.name == column) ≡ true → c.type ≡ old) (λ c. c.name == column)
          (retype new) (retype old) t.columns
          (λ c h named. (named, ap (λ type. record c { type = type }) (sym (h named)))) typed)

  retyped_there :
      (t : Table)
      → is_named table t ≡ true
      → (is_named table t && has_column column t) ≡ true
      → (is_named table (on_column column (retype new) t)
          && has_column column (on_column column (retype new) t))
        ≡ true
  retyped_there t named both = rw named (
      exists_kept (λ c. c.name == column) (λ c. c.name == column) (retype new) t.columns
        (λ c h k. k) (second both))
    where
      second : (is_named table t && has_column column t) ≡ true → has_column column t ≡ true
      second h = ground arith

  pub alter_type-undone :
      (s s' : Schema)
      → HasType table column old s
      → run (alter_type table column new) s ≡ some s'
      → run (alter_type table column old) s' ≡ some s
  unfolding run
  alter_type-undone s s' typed h =
      guarded_back _ _ s' s (run (alter_type table column old)) h λ there.
        rw
          (exists_kept (is_named table) (λ t. is_named table t && has_column column t)
            (on_column column (retype new)) s.tables retyped_there there)
          (ap (λ ts. some (record s { tables = ts }))
            (update_restores
              (λ t.
                is_named table t ≡ true
                → All (λ (c : Column). (c.name == column) ≡ true → c.type ≡ old) t.columns)
              (is_named table) (on_column column (retype new)) (on_column column (retype old))
              s.tables (λ t h named. (named, retyped_back t (h named))) typed))

absent_trigger :
    (name table : Text) (t : Table)
    → is_named table t ≡ true
    → (is_named table t && contains t.triggers name) ≡ false
    → contains t.triggers name ≡ false
absent_trigger name table t h k = ground arith

pub create_trigger-undone :
    (name table : Text)
    → Undone (create_trigger name table ∷ []) (drop_trigger_if_exists name table ∷ [])
unfolding run
create_trigger-undone name table = one_step _ _ λ s s' h.
    guarded_back _ _ s' s (run (drop_trigger_if_exists name table)) h λ free.
      let (there, new) = both_guards _ _ free in
      ap (λ ts. some (record s { tables = ts }))
        (update_back (is_named table) (λ t. is_named table t && contains t.triggers name)
          (add_trigger name) (remove_trigger name) s.tables
          (λ t named fresh. (
            named,
            ap (λ ts. record t { triggers = ts })
                (text_back name t.triggers (absent_trigger name table t named fresh)),
          ))
          new)

without_absent : (name : Text) (ts : List Text) → contains ts name ≡ false → without name ts ≡ ts
unfolding where_
without_absent name [] h = refl
without_absent name (t ∷ ts) h = ground (arith, without_absent name ts)

pub function-undone :
    (name : Text) (s s' : Schema)
    → contains s.functions name ≡ false
    → run (create_or_replace_function name) s ≡ some s'
    → run (drop_function_if_exists name) s' ≡ some s
unfolding run
function-undone name s s' free h =
    subst (λ u. run (drop_function_if_exists name) u ≡ some s) (some_of h)
      (ap (λ ts. some (record s { functions = ts }))
        (ap (λ ts. without name (name ∷ ts)) (without_absent name s.functions free)
          ∙ text_back name s.functions free))
