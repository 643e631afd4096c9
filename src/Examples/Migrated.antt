-- ===== src/Examples/Migrated.antt =====
-- The migrations on databases of their own.
use jarvis_ai_coo.Prelude.{
  codes, ◌≡◌, refl, Option, none, some, List, [], ◌∷◌, map, find, text_eq, update, where_, ◌==◌,
  ◌++◌, All,
}
use native.Mathlib.Decide.{ℕ_discrete}
use jarvis_ai_coo.Models.{SkillVersion}
use jarvis_ai_coo.Migrations.{
  string, text, Column, Schema, Constraint, cascading, primary_key, unique, run_all, Dialect,
  sqlite, postgresql, revisions, status_as_enum, upgrade, downgrade, upgrade_head, downgrade_base,
  status_enum, column,
}
use jarvis_ai_coo.Migrations.Undo.{downgrade_undoes}
use jarvis_ai_coo.Migrations.Backfill.{
  VersionRow, upgrade_rows, downgrade_row, IsOwned, upgrade_rows-IsOwned,
}
use jarvis_ai_coo.Examples.Data.{triage, skill_id, version_id}

abbrev blank_schema : Schema
blank_schema = record { tables = []; types = []; functions = [] }

-- behind `upgrade head`
abbrev head_of : Dialect → Option Schema
head_of d = run_all (upgrade_head revisions d) blank_schema

constraints_of : Option Schema → List Constraint
constraints_of none = []
constraints_of (some s) = elim (find (λ t. t.name == codes "skill_versions") s.tables) [
  | none ↦ []
  | some t ↦ t.constraints
]

-- At the head the versions refer to their skill, but not to their organization, as app/models.py has it.
versions_unreferenced :
    constraints_of (head_of postgresql)
    ≡ cascading (codes "skill_id") (codes "skills.id")
      ∷ primary_key (codes "id" ∷ [])
      ∷ unique
          (some (codes "uq_skill_versions_number"))
          (codes "skill_id" ∷ codes "version_number" ∷ [])
      ∷ []
unfolding run_all upgrade_head find text_eq ℕ_discrete update constraints_of
versions_unreferenced = refl

-- `upgrade head` and `downgrade base` leave a blank database blank.
back_to_base :
    (run_all (upgrade_head revisions sqlite ++ downgrade_base revisions sqlite) blank_schema
      ≡ some blank_schema)
    × (run_all
          (upgrade_head revisions postgresql ++ downgrade_base revisions postgresql)
          blank_schema
        ≡ some blank_schema)
unfolding run_all upgrade_head downgrade_base find text_eq ℕ_discrete update where_
back_to_base = (refl, refl)

abbrev skills_table : Column → Schema
skills_table status = record {
  tables =
      record {
        name = codes "skills";
        columns = column (codes "content") text ∷ status ∷ [];
        constraints = [];
        indexes = [];
        triggers = [];
      }
      ∷ [];
  types = [];
  functions = [];
}

abbrev retyped : Schema
retyped = record (skills_table (column (codes "status") status_enum)) {
  types = codes "skillstatus" ∷ [];
}

downgrade_undoes_example :
    run_all (downgrade status_as_enum postgresql) retyped
    ≡ some (skills_table (column (codes "status") (string 32)))
unfolding run_all upgrade find text_eq ℕ_discrete update
downgrade_undoes_example =
    downgrade_undoes status_as_enum postgresql (skills_table (column (codes "status") (string 32)))
      retyped (λ named. (λ h. cc, (λ h. refl, tt)), tt) refl

abbrev row : VersionRow
row = record {
  id = version_id;
  skill_id = skill_id;
  version_number = 1;
  name = codes "Triage";
  description = [];
  department = codes "ops";
  content = codes "Read.";
  requested_tools = [];
  version_hash = codes "h";
  created_by = codes "bob";
  created_at = 4;
}

upgrade_rows-IsOwned_example :
    (versions : List SkillVersion) × (upgrade_rows (triage ∷ []) (row ∷ []) ≡ some versions)
    × (map downgrade_row versions ≡ row ∷ [])
    × All (IsOwned (triage ∷ [])) versions
unfolding find text_eq ℕ_discrete
upgrade_rows-IsOwned_example =
    upgrade_rows-IsOwned (triage ∷ []) (row ∷ []) (refl, tt) (λ e. cc, tt)
