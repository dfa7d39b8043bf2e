-- ===== src/Policy/Manifest.antt =====
-- src/policy/manifest.py: the policy manifest, after `yaml.safe_load`.
use agentic_engineering_url.Prelude.{
  String, Option, none, some, List, [], ◌∷◌, Result, ok, err, ◌>>=◌,
}

-- The loaded data, as far as it is looked at: each key may be missing, and `policies` is a list or
-- something else (`none`). Each policy is shown by its `id`, if it has one.
pub record RawManifest : Type 0 where
  pub version : Option String
  pub policies : Option (List (Option String))

pub record Manifest : Type 0 where
  pub version : String
  pub policies : List String

pub data ManifestError : Type 0 where
  missing_version missing_policies missing_id : ManifestError

-- for policy in data["policies"]: if "id" not in policy: raise …
unfoldable pub all_ids : List (Option String) → Result ManifestError (List String)
all_ids [] = ok []
all_ids (none ∷ ps) = err missing_id
all_ids (some id ∷ ps) = do ids ← all_ids ps; ok (id ∷ ids)

unfoldable pub load_manifest : RawManifest → Result ManifestError Manifest
unfolding all_ids
load_manifest raw = elim raw.version [
  | none ↦ err missing_version
  | some version ↦ elim raw.policies [
    | none ↦ err missing_policies
    | some policies ↦ do ids ← all_ids policies; ok (record { version = version; policies = ids })
  ]
]

abbrev pub policy_ids : Manifest → List String
policy_ids manifest = manifest.policies
