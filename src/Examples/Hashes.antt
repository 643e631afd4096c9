-- ===== src/Examples/Hashes.antt =====
-- The hashes of two stored versions, under a toy digest: the length of the text, modulo 4096.
use jarvis_ai_coo.Prelude.{
  Text, codes, ◌%◌, ◌≡◌, ◌≢◌, ◌↔◌, refl, Bool, true, ◌&&◌, ltb, length, nat_eq, text_eq, [], ◌∷◌,
  find, inl, inr, arith,
}
use native.Mathlib.Decide.{ℕ_discrete}
use jarvis_ai_coo.Strings.{text_lt}
use jarvis_ai_coo.Models.{Database, SkillVersion}
use jarvis_ai_coo.Database.{Env, exists}
use jarvis_ai_coo.Json.{sort_keys, insert_key, dumps, dump_object}
use jarvis_ai_coo.Json.Splits.{IsUnicode}
use jarvis_ai_coo.Skills.{compute_version_hash, snapshot}
use jarvis_ai_coo.Registry.Sound.{IsSound}
use jarvis_ai_coo.Registry.Fingerprint.{HasUnicode, NoCollision, snapshot_of, version_hash-names}
use jarvis_ai_coo.Examples.Data.{env, email, triage, triage_one, tables}

abbrev toy : Env
toy = record env { sha256_hex = λ t. (length t % 4096) ∷ [] }

abbrev hashed : SkillVersion → SkillVersion
hashed v = record v { version_hash = compute_version_hash toy (snapshot_of v) }

abbrev first : SkillVersion
first = hashed triage_one

-- the next version, which reads nothing but mail
abbrev second : SkillVersion
second =
    hashed (record triage_one { id = codes "v2"; version_number = 2; requested_tools = email ∷ [] })

abbrev two_versions : Database
two_versions = record tables { skill_versions = second ∷ first ∷ []; tool_approvals = [] }

two_versions-IsSound : IsSound toy two_versions
unfolding find exists text_eq ℕ_discrete nat_eq
two_versions-IsSound = record {
  skill_ids = (refl, tt);
  version_ids = (refl, (refl, tt));
  approval_tools = tt;
  versions = (
    record {
      owner = triage;
      found = refl;
      organization_id = refl;
      released = λ e. cc;
      numbered = omega arith;
      hash = refl;
    },
    (
      record {
        owner = triage;
        found = refl;
        organization_id = refl;
        released = λ e. cc;
        numbered = omega arith;
        hash = refl;
      },
      tt,
    ),
  );
  pointers = ((first, refl, refl, refl), tt);
  approvals = tt;
}

abbrev is_low : Text → Bool
is_low [] = true
is_low (c ∷ t) = ltb c 55296 && is_low t

low-IsUnicode : (t : Text) → is_low t ≡ true → IsUnicode t
low-IsUnicode [] h = tt
low-IsUnicode (c ∷ t) h = (inl (ground arith), low-IsUnicode t (ground arith))

first-HasUnicode : HasUnicode first
first-HasUnicode = record {
  organization_id = low-IsUnicode first.organization_id refl;
  skill_id = low-IsUnicode first.skill_id refl;
  name = low-IsUnicode first.name refl;
  description = tt;
  department = low-IsUnicode first.department refl;
  content = low-IsUnicode first.content refl;
  requested_tools = (low-IsUnicode email refl, (low-IsUnicode (codes "crm.read") refl, tt));
}

second-HasUnicode : HasUnicode second
second-HasUnicode = record {
  organization_id = low-IsUnicode second.organization_id refl;
  skill_id = low-IsUnicode second.skill_id refl;
  name = low-IsUnicode second.name refl;
  description = tt;
  department = low-IsUnicode second.department refl;
  content = low-IsUnicode second.content refl;
  requested_tools = (low-IsUnicode email refl, tt);
}

first_digest : toy.sha256_hex (dumps (snapshot_of first)) ≡ 175 ∷ []
unfolding compute_version_hash snapshot dumps dump_object sort_keys insert_key text_lt nat_eq
    ℕ_discrete text_eq
first_digest = refl

second_digest : toy.sha256_hex (dumps (snapshot_of second)) ≡ 164 ∷ []
unfolding compute_version_hash snapshot dumps dump_object sort_keys insert_key text_lt nat_eq
    ℕ_discrete text_eq
second_digest = refl

apart : {a b : Text} → a ≡ 175 ∷ [] → b ≡ 164 ∷ [] → a ≢ b
apart p q e = ground arith

digests_differ : NoCollision toy first second
digests_differ e = absurd (apart first_digest second_digest e)

version_hash-names_example : (first.version_hash ≡ second.version_hash) ↔ (first ≡ second)
version_hash-names_example =
    version_hash-names toy two_versions first second digests_differ two_versions-IsSound
      (inr (inl refl)) (inl refl) first-HasUnicode second-HasUnicode
