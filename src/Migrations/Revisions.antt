-- ===== src/Migrations/Revisions.antt =====
-- The six revisions, each with its upgrade and its downgrade on a dialect.
use jarvis_ai_coo.Prelude.{Text, codes, some, List, [], ◌∷◌, ◌++◌}
use jarvis_ai_coo.Migrations.Tables.{
  ColumnType, string, timestamp, enum, primary_key, unique, check, cascading, Operation,
  create_table, drop_table, drop_index, add_column, drop_column, set_not_null, alter_type,
  create_type, drop_type, create_or_replace_function, drop_function_if_exists, create_trigger,
  drop_trigger_if_exists, update_rows,
}
use jarvis_ai_coo.Migrations.Initial.{
  column, nullable_column, index, organizations_id, create_organizations, create_skills,
  create_skill_versions, create_audit_logs, drop_initial_tables,
}

pub data Dialect : Type 0 where
  sqlite postgresql : Dialect

-- 0002_organization_memberships
unfoldable pub create_memberships : List Operation
create_memberships =
    create_table (codes "memberships")
      (column (codes "organization_id") (string 36)
        ∷ column (codes "user_id") (string 255)
        ∷ column (codes "role") (string 32)
        ∷ column (codes "created_at") timestamp
        ∷ [])
      (check (codes "ck_memberships_role") (codes "role IN ('owner', 'member')")
        ∷ organizations_id
        ∷ primary_key (codes "organization_id" ∷ codes "user_id" ∷ [])
        ∷ [])
    ∷ index (codes "ix_memberships_user") (codes "memberships") (codes "user_id" ∷ [])
    ∷ []

unfoldable pub drop_memberships : List Operation
drop_memberships =
    drop_index (codes "ix_memberships_user") (codes "memberships")
    ∷ drop_table (codes "memberships")
    ∷ []

-- 0003_skill_versions_organization_id
unfoldable pub add_organization_id : List Operation
add_organization_id =
    add_column (codes "skill_versions") (nullable_column (codes "organization_id") (string 36))
    ∷ update_rows
    ∷ set_not_null (codes "skill_versions") (codes "organization_id")
    ∷ index (codes "ix_skill_versions_org") (codes "skill_versions") (codes "organization_id" ∷ [])
    ∷ []

unfoldable pub drop_organization_id : List Operation
drop_organization_id =
    drop_index (codes "ix_skill_versions_org") (codes "skill_versions")
    ∷ drop_column (codes "skill_versions") (codes "organization_id")
    ∷ []

-- 0004_status_enum
abbrev pub status_enum : ColumnType
status_enum = enum (codes "skillstatus") (codes "draft" ∷ codes "active" ∷ codes "disabled" ∷ [])

unfoldable pub retype_status : Dialect → List Operation
retype_status sqlite = alter_type (codes "skills") (codes "status") status_enum ∷ []
retype_status postgresql =
    create_type (codes "skillstatus")
    ∷ alter_type (codes "skills") (codes "status") status_enum
    ∷ []

unfoldable pub retype_status_back : Dialect → List Operation
retype_status_back sqlite = alter_type (codes "skills") (codes "status") (string 32) ∷ []
retype_status_back postgresql =
    alter_type (codes "skills") (codes "status") (string 32) ∷ drop_type (codes "skillstatus") ∷ []

-- 0005_tool_approvals
unfoldable pub create_tool_approvals : List Operation
create_tool_approvals =
    create_table (codes "tool_approvals")
      (column (codes "id") (string 36)
        ∷ column (codes "organization_id") (string 36)
        ∷ column (codes "skill_id") (string 36)
        ∷ column (codes "version_id") (string 36)
        ∷ column (codes "tool") (string 128)
        ∷ column (codes "approved_by") (string 255)
        ∷ column (codes "created_at") timestamp
        ∷ [])
      (primary_key (codes "id" ∷ [])
        ∷ organizations_id
        ∷ cascading (codes "skill_id") (codes "skills.id")
        ∷ cascading (codes "version_id") (codes "skill_versions.id")
        ∷ unique (some (codes "uq_tool_approvals_tool")) (codes "version_id" ∷ codes "tool" ∷ [])
        ∷ [])
    ∷ index (codes "ix_tool_approvals_org") (codes "tool_approvals") (codes "organization_id" ∷ [])
    ∷ []

unfoldable pub drop_tool_approvals : List Operation
drop_tool_approvals =
    drop_index (codes "ix_tool_approvals_org") (codes "tool_approvals")
    ∷ drop_table (codes "tool_approvals")
    ∷ []

-- 0006_version_rows_immutable
abbrev pub forbid_function : Text
forbid_function = codes "forbid_skill_version_mutation"

unfoldable pub forbid_mutation : Dialect → List Operation
forbid_mutation sqlite = []
forbid_mutation postgresql =
    create_or_replace_function forbid_function
    ∷ create_trigger (codes "skill_versions_immutable") (codes "skill_versions")
    ∷ []

unfoldable pub allow_mutation : Dialect → List Operation
allow_mutation sqlite = []
allow_mutation postgresql =
    drop_trigger_if_exists (codes "skill_versions_immutable") (codes "skill_versions")
    ∷ drop_function_if_exists forbid_function
    ∷ []

pub data Revision : Type 0 where
  initial_schema memberships versions_org_id status_as_enum tool_approvals version_rows_immutable :
      Revision

unfoldable pub upgrade : Revision → Dialect → List Operation
unfolding create_organizations create_skills create_skill_versions create_audit_logs
    create_memberships add_organization_id retype_status create_tool_approvals forbid_mutation
upgrade initial_schema d =
    create_organizations ++ (create_skills ++ (create_skill_versions ++ create_audit_logs))
upgrade memberships d = create_memberships
upgrade versions_org_id d = add_organization_id
upgrade status_as_enum d = retype_status d
upgrade tool_approvals d = create_tool_approvals
upgrade version_rows_immutable d = forbid_mutation d

unfoldable pub downgrade : Revision → Dialect → List Operation
unfolding drop_initial_tables drop_memberships drop_organization_id retype_status_back
    drop_tool_approvals allow_mutation
downgrade initial_schema d = drop_initial_tables
downgrade memberships d = drop_memberships
downgrade versions_org_id d = drop_organization_id
downgrade status_as_enum d = retype_status_back d
downgrade tool_approvals d = drop_tool_approvals
downgrade version_rows_immutable d = allow_mutation d

-- the chain of `down_revision`, from the first
abbrev pub revisions : List Revision
revisions =
    initial_schema ∷ memberships ∷ versions_org_id ∷ status_as_enum ∷ tool_approvals
    ∷ version_rows_immutable ∷ []

-- `alembic upgrade head` and `alembic downgrade base`
unfoldable pub upgrade_head : List Revision → Dialect → List Operation
unfolding upgrade
upgrade_head [] d = []
upgrade_head (revision ∷ later) d = upgrade revision d ++ upgrade_head later d

unfoldable pub downgrade_base : List Revision → Dialect → List Operation
unfolding downgrade
downgrade_base [] d = []
downgrade_base (revision ∷ later) d = downgrade_base later d ++ downgrade revision d
