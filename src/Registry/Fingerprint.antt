-- ===== src/Registry/Fingerprint.antt =====
-- What the hash of a version tells apart.
use jarvis_ai_coo.Prelude.{
  Text, codes, ◌≡◌, ◌↔◌, refl, sym, ap, ◌∙◌, subst, Bool, true, ◌||◌, ◌&&◌, ◌==◌, nat_eq, text_eq,
  List, [], ◌∷◌, All, All-In, In, find, inl, inr, arith,
}
use native.Mathlib.Decide.{ℕ_discrete}
use jarvis_ai_coo.Strings.{text_lt}
use jarvis_ai_coo.Models.{Database, Value, str, int, strs, SkillVersion}
use jarvis_ai_coo.Database.{Env, exists}
use jarvis_ai_coo.Json.{sort_keys, insert_key, dumps, dump_object}
use jarvis_ai_coo.Json.Splits.{IsUnicode}
use jarvis_ai_coo.Json.Entries.{
  object_str-splits, rest_str-splits, rest_strs-splits, last_int-splits,
}
use jarvis_ai_coo.Skills.{compute_version_hash, snapshot}
use jarvis_ai_coo.Registry.Sound.{IsSound, IsSnapshot, UniqueVersions}

-- what the hash of a version is taken of
abbrev pub snapshot_of : SkillVersion → List (Text × Value)
snapshot_of v =
    snapshot v.organization_id v.skill_id v.version_number v.name v.description v.department
      v.content v.requested_tools

-- the entries of a snapshot in the order of their keys, from each key on
abbrev from_number : SkillVersion → List (Text × Value)
from_number v = (codes "version_number", int v.version_number) ∷ []

abbrev from_skill : SkillVersion → List (Text × Value)
from_skill v = (codes "skill_id", str v.skill_id) ∷ from_number v

abbrev from_tools : SkillVersion → List (Text × Value)
from_tools v = (codes "requested_tools", strs v.requested_tools) ∷ from_skill v

abbrev from_organization : SkillVersion → List (Text × Value)
from_organization v = (codes "organization_id", str v.organization_id) ∷ from_tools v

abbrev from_name : SkillVersion → List (Text × Value)
from_name v = (codes "name", str v.name) ∷ from_organization v

abbrev from_description : SkillVersion → List (Text × Value)
from_description v = (codes "description", str v.description) ∷ from_name v

abbrev from_department : SkillVersion → List (Text × Value)
from_department v = (codes "department", str v.department) ∷ from_description v

abbrev from_content : SkillVersion → List (Text × Value)
from_content v = (codes "content", str v.content) ∷ from_department v

sorted_entries : (v : SkillVersion) → sort_keys (snapshot_of v) ≡ from_content v
unfolding sort_keys snapshot insert_key text_lt nat_eq ℕ_discrete
sorted_entries v = refl

-- The texts of a version are Unicode, as those of a JSON body are.
pub record HasUnicode (v : SkillVersion) : Type 0 where
  pub organization_id : IsUnicode v.organization_id
  pub skill_id : IsUnicode v.skill_id
  pub name : IsUnicode v.name
  pub description : IsUnicode v.description
  pub department : IsUnicode v.department
  pub content : IsUnicode v.content
  pub requested_tools : All IsUnicode v.requested_tools

-- Two versions are the same number of the same skill, with the same definition.
pub record SameDefinition (v w : SkillVersion) : Type 0 where
  pub organization_id : v.organization_id ≡ w.organization_id
  pub skill_id : v.skill_id ≡ w.skill_id
  pub version_number : v.version_number ≡ w.version_number
  pub name : v.name ≡ w.name
  pub description : v.description ≡ w.description
  pub department : v.department ≡ w.department
  pub content : v.content ≡ w.content
  pub requested_tools : v.requested_tools ≡ w.requested_tools

dumps-SameDefinition :
    (v w : SkillVersion)
    → HasUnicode v
    → HasUnicode w
    → dumps (snapshot_of v) ≡ dumps (snapshot_of w)
    → SameDefinition v w
unfolding dumps
dumps-SameDefinition v w hv hw e =
    let sorted_dumps : dump_object (from_content v) ≡ dump_object (from_content w) =
      sym (ap dump_object (sorted_entries v)) ∙ (e ∙ ap dump_object (sorted_entries w)) in
    let (content, e1) =
      object_str-splits (codes "content") (from_department v) (from_department w) v.content
        w.content hv.content hw.content sorted_dumps in
    let (department, e2) =
      rest_str-splits (codes "department") (from_description v) (from_description w) v.department
        w.department hv.department hw.department e1 in
    let (description, e3) =
      rest_str-splits (codes "description") (from_name v) (from_name w) v.description w.description
        hv.description hw.description e2 in
    let (name, e4) =
      rest_str-splits (codes "name") (from_organization v) (from_organization w) v.name w.name
        hv.name hw.name e3 in
    let (organization_id, e5) =
      rest_str-splits (codes "organization_id") (from_tools v) (from_tools w) v.organization_id
        w.organization_id hv.organization_id hw.organization_id e4 in
    let (tools, e6) =
      rest_strs-splits (codes "requested_tools") (from_skill v) (from_skill w) v.requested_tools
        w.requested_tools hv.requested_tools hw.requested_tools e5 in
    let (skill_id, e7) =
      rest_str-splits (codes "skill_id") (from_number v) (from_number w) v.skill_id w.skill_id
        hv.skill_id hw.skill_id e6 in
    record {
      organization_id = organization_id;
      skill_id = skill_id;
      version_number =
          last_int-splits (codes "version_number") v.version_number w.version_number e7;
      name = name;
      description = description;
      department = department;
      content = content;
      requested_tools = tools;
    }

exists_In :
    {A : Type 0} (p : A → Bool) (x : A) (xs : List A) → In x xs → p x ≡ true → exists p xs ≡ true
unfolding exists find
exists_In p x [] m h = elim m [ ]
exists_In p x (y ∷ ys) m h = ground (arith, exists_In p x ys)

-- In sound tables one row has a skill and a number.
only_row :
    (vs : List SkillVersion) (v w : SkillVersion)
    → UniqueVersions vs
    → In v vs
    → In w vs
    → v.skill_id ≡ w.skill_id
    → v.version_number ≡ w.version_number
    → v ≡ w
only_row [] v w u m n s k = elim m [ ]
only_row (x ∷ vs) v w (free, u) (inl e) (inl f) s k = e ∙ sym f
only_row (x ∷ vs) v w (free, u) (inl e) (inr n) s k = cc (
  free,
  exists_In (λ y. y.id == x.id || y.skill_id == x.skill_id && y.version_number == x.version_number)
      w vs n
      (subst
        (λ (z : SkillVersion).
          (w.id == z.id || w.skill_id == z.skill_id && w.version_number == z.version_number) ≡ true)
        e (ground arith)),
)
only_row (x ∷ vs) v w (free, u) (inr m) (inl f) s k = cc (
  free,
  exists_In (λ y. y.id == x.id || y.skill_id == x.skill_id && y.version_number == x.version_number)
      v vs m
      (subst
        (λ (z : SkillVersion).
          (v.id == z.id || v.skill_id == z.skill_id && v.version_number == z.version_number) ≡ true)
        f (ground arith)),
)
only_row (x ∷ vs) v w (free, u) (inr m) (inr n) s k = only_row vs v w u m n s k

-- SHA-256 at the snapshots of two versions: they do not collide.
abbrev pub NoCollision : Env → SkillVersion → SkillVersion → Type 0
NoCollision env v w =
    env.sha256_hex (dumps (snapshot_of v)) ≡ env.sha256_hex (dumps (snapshot_of w))
    → dumps (snapshot_of v) ≡ dumps (snapshot_of w)

hash-SameDefinition :
    (env : Env) (db : Database) (v w : SkillVersion)
    → NoCollision env v w
    → IsSnapshot env db.skills v
    → IsSnapshot env db.skills w
    → HasUnicode v
    → HasUnicode w
    → v.version_hash ≡ w.version_hash
    → SameDefinition v w
unfolding compute_version_hash
hash-SameDefinition env db v w free sv sw hv hw e =
    dumps-SameDefinition v w hv hw (free (sym sv.hash ∙ (e ∙ sw.hash)))

-- In sound tables, and so in all that requests lead to from such, a version hash names one version: two
-- stored versions with Unicode texts, whose snapshots SHA-256 does not let collide, have the same hash
-- exactly if they are the same row. In particular no version of another skill, number or definition
-- passes for it.
pub version_hash-names :
    (env : Env) (db : Database) (v w : SkillVersion)
    → NoCollision env v w
    → IsSound env db
    → In v db.skill_versions
    → In w db.skill_versions
    → HasUnicode v
    → HasUnicode w
    → (v.version_hash ≡ w.version_hash) ↔ (v ≡ w)
version_hash-names env db v w free sound mv mw hv hw = (
  λ e.
      let same =
        hash-SameDefinition env db v w free
          (All-In (IsSnapshot env db.skills) v db.skill_versions sound.versions mv)
          (All-In (IsSnapshot env db.skills) w db.skill_versions sound.versions mw) hv hw e in
      only_row db.skill_versions v w sound.version_ids mv mw same.skill_id same.version_number,
  ap (λ (x : SkillVersion). x.version_hash),
)
