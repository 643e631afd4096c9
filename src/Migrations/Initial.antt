-- ===== src/Migrations/Initial.antt =====
-- 0001_initial_schema.
use jarvis_ai_coo.Prelude.{Text, codes, true, false, none, some, List, [], ◌∷◌}
use jarvis_ai_coo.Migrations.Tables.{
  ColumnType, string, text, integer, json, timestamp, Column, Constraint, primary_key, unique,
  check, cascading, Operation, create_table, drop_table, create_index, drop_index,
}

-- `sa.Column(name, type, nullable=False)`, and with `nullable=True`
abbrev pub column : Text → ColumnType → Column
column name type = record { name = name; type = type; nullable = false }

abbrev pub nullable_column : Text → ColumnType → Column
nullable_column name type = record { name = name; type = type; nullable = true }

abbrev pub index : Text → Text → List Text → Operation
index name table columns = create_index (record { name = name; table = table; columns = columns })

abbrev pub organizations_id : Constraint
organizations_id = cascading (codes "organization_id") (codes "organizations.id")

unfoldable pub create_organizations : List Operation
create_organizations =
    create_table (codes "organizations")
      (column (codes "id") (string 36)
        ∷ column (codes "name") (string 255)
        ∷ column (codes "created_at") timestamp
        ∷ [])
      (primary_key (codes "id" ∷ []) ∷ unique none (codes "name" ∷ []) ∷ [])
    ∷ []

unfoldable pub create_skills : List Operation
create_skills =
    create_table (codes "skills")
      (column (codes "id") (string 36)
        ∷ column (codes "organization_id") (string 36)
        ∷ column (codes "name") (string 255)
        ∷ column (codes "description") text
        ∷ column (codes "department") (string 128)
        ∷ column (codes "content") text
        ∷ column (codes "requested_tools") json
        ∷ column (codes "status") (string 32)
        ∷ nullable_column (codes "active_version_id") (string 36)
        ∷ column (codes "created_by") (string 255)
        ∷ column (codes "created_at") timestamp
        ∷ column (codes "updated_at") timestamp
        ∷ [])
      (check (codes "ck_skills_status") (codes "status IN ('draft', 'active', 'disabled')")
        ∷ organizations_id
        ∷ primary_key (codes "id" ∷ [])
        ∷ [])
    ∷ index (codes "ix_skills_organization_id") (codes "skills") (codes "organization_id" ∷ [])
    ∷ index (codes "ix_skills_org_status") (codes "skills")
        (codes "organization_id" ∷ codes "status" ∷ [])
    ∷ index (codes "ix_skills_org_department") (codes "skills")
        (codes "organization_id" ∷ codes "department" ∷ [])
    ∷ []

unfoldable pub create_skill_versions : List Operation
create_skill_versions =
    create_table (codes "skill_versions")
      (column (codes "id") (string 36)
        ∷ column (codes "skill_id") (string 36)
        ∷ column (codes "version_number") integer
        ∷ column (codes "name") (string 255)
        ∷ column (codes "description") text
        ∷ column (codes "department") (string 128)
        ∷ column (codes "content") text
        ∷ column (codes "requested_tools") json
        ∷ column (codes "version_hash") (string 64)
        ∷ column (codes "created_by") (string 255)
        ∷ column (codes "created_at") timestamp
        ∷ [])
      (cascading (codes "skill_id") (codes "skills.id")
        ∷ primary_key (codes "id" ∷ [])
        ∷ unique (some (codes "uq_skill_versions_number"))
            (codes "skill_id" ∷ codes "version_number" ∷ [])
        ∷ [])
    ∷ index (codes "ix_skill_versions_skill") (codes "skill_versions") (codes "skill_id" ∷ [])
    ∷ []

unfoldable pub create_audit_logs : List Operation
create_audit_logs =
    create_table (codes "audit_logs")
      (column (codes "id") (string 36)
        ∷ column (codes "organization_id") (string 36)
        ∷ nullable_column (codes "skill_id") (string 36)
        ∷ nullable_column (codes "version_id") (string 36)
        ∷ column (codes "actor_id") (string 255)
        ∷ column (codes "actor_role") (string 32)
        ∷ column (codes "event") (string 64)
        ∷ nullable_column (codes "version_hash") (string 64)
        ∷ column (codes "detail") json
        ∷ column (codes "created_at") timestamp
        ∷ [])
      (organizations_id ∷ primary_key (codes "id" ∷ []) ∷ [])
    ∷ index (codes "ix_audit_logs_organization_id") (codes "audit_logs")
        (codes "organization_id" ∷ [])
    ∷ index (codes "ix_audit_logs_org_created") (codes "audit_logs")
        (codes "organization_id" ∷ codes "created_at" ∷ [])
    ∷ index (codes "ix_audit_logs_skill") (codes "audit_logs") (codes "skill_id" ∷ [])
    ∷ []

unfoldable pub drop_initial_tables : List Operation
drop_initial_tables =
    drop_index (codes "ix_audit_logs_skill") (codes "audit_logs")
    ∷ drop_index (codes "ix_audit_logs_org_created") (codes "audit_logs")
    ∷ drop_index (codes "ix_audit_logs_organization_id") (codes "audit_logs")
    ∷ drop_table (codes "audit_logs")
    ∷ drop_index (codes "ix_skill_versions_skill") (codes "skill_versions")
    ∷ drop_table (codes "skill_versions")
    ∷ drop_index (codes "ix_skills_org_department") (codes "skills")
    ∷ drop_index (codes "ix_skills_org_status") (codes "skills")
    ∷ drop_index (codes "ix_skills_organization_id") (codes "skills")
    ∷ drop_table (codes "skills")
    ∷ drop_table (codes "organizations")
    ∷ []
