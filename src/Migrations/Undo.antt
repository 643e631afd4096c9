-- ===== src/Migrations/Undo.antt =====
-- A downgrade undoes its upgrade.
mod Steps
mod Columns
use jarvis_ai_coo.Prelude.{
  Text, codes, ◌≡◌, refl, some, none, ap, Option, List, [], ◌∷◌, ◌++◌, false, contains, text_eq,
  ◌∙◌, arith, sym, subst,
}
use jarvis_ai_coo.Migrations.Tables.{
  string, Column, Constraint, Index, Schema, Operation, create_table, drop_table, create_index,
  drop_index, create_type, drop_type, alter_type, create_or_replace_function,
  drop_function_if_exists, create_trigger, drop_trigger_if_exists, run, run_all,
}
use jarvis_ai_coo.Migrations.Revisions.{
  Dialect, sqlite, postgresql, Revision, initial_schema, memberships, versions_org_id,
  status_as_enum, tool_approvals, version_rows_immutable, upgrade, downgrade, status_enum,
  forbid_function,
}
use jarvis_ai_coo.Migrations.Initial.{nullable_column}
use jarvis_ai_coo.Migrations.Undo.Steps.{
  Undone, undone-append, run_all-append, run_all-split, guarded, single_step, single_result,
  create_table-undone, create_index-undone, create_type-undone,
}
use jarvis_ai_coo.Migrations.Undo.Columns.{
  HasType, add_column-undone, alter_type-undone, create_trigger-undone, function-undone,
}

-- What a revision takes as it finds it: 0004 that the status is a VARCHAR(32), and 0006 that its
-- function is not there.
abbrev pub Fits : Revision → Dialect → Schema → Type 0
Fits status_as_enum d s = HasType (codes "skills") (codes "status") (string 32) s
Fits version_rows_immutable postgresql s = contains s.functions forbid_function ≡ false
Fits _ _ s = Unit

-- an operation with the one that undoes it, in front of others
and_then :
    (op op' : Operation) (b b' : List Operation)
    → Undone (op ∷ []) (op' ∷ [])
    → Undone b b'
    → Undone (op ∷ b) (b' ++ op' ∷ [])
and_then op op' b b' u v = undone-append (op ∷ []) (op' ∷ []) b b' u v

nothing_undone : Undone [] []
unfolding run_all
nothing_undone s s' h = ground arith

memberships_undone : (d : Dialect) → Undone (upgrade memberships d) (downgrade memberships d)
unfolding upgrade downgrade
memberships_undone d = and_then _ _ _ _ (create_table-undone _ _ _) (create_index-undone _)

initial_undone : (d : Dialect) → Undone (upgrade initial_schema d) (downgrade initial_schema d)
unfolding upgrade downgrade
initial_undone d = and_then _ _ _ _ (create_table-undone _ _ _) (
    and_then _ _ _ _ (create_table-undone _ _ _) (
      and_then _ _ _ _ (create_index-undone _) (
        and_then _ _ _ _ (create_index-undone _) (
          and_then _ _ _ _ (create_index-undone _) (
            and_then _ _ _ _ (create_table-undone _ _ _) (
              and_then _ _ _ _ (create_index-undone _) (
                and_then _ _ _ _ (create_table-undone _ _ _) (
                  and_then _ _ _ _ (create_index-undone _)
                    (and_then _ _ _ _ (create_index-undone _) (create_index-undone _))))))))))

versions_undone : (d : Dialect) → Undone (upgrade versions_org_id d) (downgrade versions_org_id d)
unfolding upgrade downgrade
versions_undone d =
    undone-append _ _ _ _
      (add_column-undone (codes "skill_versions")
        (nullable_column (codes "organization_id") (string 36)))
      (create_index-undone _)

approvals_undone : (d : Dialect) → Undone (upgrade tool_approvals d) (downgrade tool_approvals d)
unfolding upgrade downgrade
approvals_undone d = and_then _ _ _ _ (create_table-undone _ _ _) (create_index-undone _)

create_type_tables :
    (name : Text) (s m : Schema) → run (create_type name) s ≡ some m → m.tables ≡ s.tables
unfolding run
create_type_tables name s m h =
    let (_, is) = guarded _ _ m h in sym (ap (λ (u : Schema). u.tables) is)

status_undone :
    (d : Dialect) (s s' : Schema)
    → HasType (codes "skills") (codes "status") (string 32) s
    → run_all (upgrade status_as_enum d) s ≡ some s'
    → run_all (downgrade status_as_enum d) s' ≡ some s
unfolding upgrade downgrade
status_undone sqlite s s' typed h = single_step _ s' s (
    alter_type-undone (codes "skills") (codes "status") (string 32) status_enum s s' typed
      (single_result _ s s' h))
status_undone postgresql s s' typed h =
    let (m, first, second) =
      run_all-split (create_type (codes "skillstatus") ∷ [])
        (alter_type (codes "skills") (codes "status") status_enum ∷ []) s s' h in
    let typed_m : HasType (codes "skills") (codes "status") (string 32) m =
      subst (λ ts. HasType (codes "skills") (codes "status") (string 32) (record s { tables = ts }))
        (sym (create_type_tables _ s m (single_result _ s m first))) typed in
    run_all-append (alter_type (codes "skills") (codes "status") (string 32) ∷ [])
      (drop_type (codes "skillstatus") ∷ []) s' m
      (single_step _ s' m (
        alter_type-undone (codes "skills") (codes "status") (string 32) status_enum m s' typed_m
          (single_result _ m s' second)))
    ∙ create_type-undone (codes "skillstatus") s m first

trigger_undone :
    (d : Dialect) (s s' : Schema)
    → Fits version_rows_immutable d s
    → run_all (upgrade version_rows_immutable d) s ≡ some s'
    → run_all (downgrade version_rows_immutable d) s' ≡ some s
unfolding upgrade downgrade
trigger_undone sqlite s s' fits h = nothing_undone s s' h
trigger_undone postgresql s s' fits h =
    let (m, first, second) =
      run_all-split (create_or_replace_function forbid_function ∷ [])
        (create_trigger (codes "skill_versions_immutable") (codes "skill_versions") ∷ []) s s' h in
    run_all-append
      (drop_trigger_if_exists (codes "skill_versions_immutable") (codes "skill_versions") ∷ [])
      (drop_function_if_exists forbid_function ∷ []) s' m (create_trigger-undone _ _ m s' second)
    ∙ single_step _ m s (function-undone forbid_function s m fits (single_result _ s m first))

-- On either dialect, wherever the upgrade of a revision succeeds, its downgrade succeeds behind it and
-- leads back to the very schema. Revision 0004 takes that the status is a VARCHAR(32) column, and 0006
-- on PostgreSQL that no function of its name is there.
pub downgrade_undoes :
    (revision : Revision) (d : Dialect) (s s' : Schema)
    → Fits revision d s
    → run_all (upgrade revision d) s ≡ some s'
    → run_all (downgrade revision d) s' ≡ some s
downgrade_undoes initial_schema d s s' fits h = initial_undone d s s' h
downgrade_undoes memberships d s s' fits h = memberships_undone d s s' h
downgrade_undoes versions_org_id d s s' fits h = versions_undone d s s' h
downgrade_undoes status_as_enum d s s' fits h = status_undone d s s' fits h
downgrade_undoes tool_approvals d s s' fits h = approvals_undone d s s' h
downgrade_undoes version_rows_immutable d s s' fits h = trigger_undone d s s' fits h
