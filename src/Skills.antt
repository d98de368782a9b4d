-- ===== src/Skills.antt =====
-- tactus-runtime/src/skills.rs: the distribution of the bundled skills into a workspace. A path is
-- relative to the root. The bundle and the hashes of old releases, which are compiled in, SHA-256,
-- serde_json and decimal text are parameters.
pub mod Files
pub mod Candidates
pub mod Reconcile
pub mod Safety
pub mod Known
pub mod Writes
mod Examples
use agenstro.Common.{
  ℕ, Bool, true, false, ◌&&◌, ◌||◌, not, Option, none, some, is_some, is_some_and, Result, ok, err,
  List, [], ◌∷◌, ◌++◌, ltb, ◌==◌, length, all, any, if◌then◌else◌,
}
use agenstro.Common.Text.{Text, lit, text_eq}

abbrev pub manifest_path : Text
manifest_path = lit ".tactus/skills-manifest.json"

abbrev pub manifest_api : Text
manifest_api = lit "tactus.skills-manifest/v1"

-- A `BTreeMap` is its list of entries.
pub record Manifest : Type 0 where
  pub api : Text
  pub files : List (Text × Text)

pub data Action : Type 0 where
  installed updated unchanged preserved skipped : Action

pub record SkillFileReport : Type 0 where
  pub path : Text
  pub action : Action
  pub reason : Text
  pub candidate : Option Text

pub record SkillUpdateReport : Type 0 where
  pub dry_run : Bool
  pub bundle_id : Text
  pub manifest_changed : Bool
  pub files : List SkillFileReport

pub data InstallMode : Type 0 where
  initialize update : InstallMode

abbrev pub is_update : InstallMode → Bool
is_update initialize = false
is_update update = true

pub record Bundle : Type 0 where
  pub bundled_files : List (Text × Text)
  pub legacy_hashes : Text → List Text
  pub sha256 : Text → Text
  pub from_slice : Text → Result Text Manifest
  pub to_vec_pretty : Manifest → Text
  pub to_text : ℕ → Text

-- A carriage return before a newline is left out.
unfoldable pub normalize_newlines : Text → Text
normalize_newlines [] = []
normalize_newlines (b ∷ []) = b ∷ []
normalize_newlines (b ∷ c ∷ s) =
    let rest = normalize_newlines (c ∷ s) in if b == 13 && c == 10 then rest else b ∷ rest

-- `BTreeMap::get` and `insert`.
abbrev pub recorded : Text → List (Text × Text) → Option Text
recorded path [] = none
recorded path ((key, hash) ∷ more) = if text_eq key path then some hash else recorded path more

abbrev pub record_hash : Text → Text → List (Text × Text) → List (Text × Text)
record_hash path hash [] = (path, hash) ∷ []
record_hash path hash ((key, old) ∷ more) =
    let rest = record_hash path hash more in
    if text_eq key path then (key, hash) ∷ more else (key, old) ∷ rest

abbrev pub is_same : Text → Option Text → Bool
is_same hash = is_some_and (λ h. text_eq h hash)

abbrev pub is_writing : Action → Bool
is_writing installed = true
is_writing updated = true
is_writing _ = false

abbrev pub is_managed : Action → Bool
is_managed unchanged = true
is_managed a = is_writing a

abbrev pub is_hexdigit : ℕ → Bool
is_hexdigit b = (ltb 47 b && ltb b 58) || ((ltb 64 b && ltb b 71) || (ltb 96 b && ltb b 103))

abbrev pub is_hash : Text → Bool
is_hash hash = length hash == 64 && all is_hexdigit hash

abbrev pub valid_hashes : List (Text × Text) → Bool
valid_hashes = all (λ e. is_hash e.1)

module _ (bundle : Bundle) where
  unfoldable pub content_hash : Text → Text
  unfolding normalize_newlines
  content_hash content = bundle.sha256 (normalize_newlines content)

  abbrev pub digested : List (Text × Text) → Text
  digested [] = []
  digested ((path, content) ∷ more) = path ++ (0 ∷ (content_hash content ++ digested more))

  unfoldable pub bundle_digest : List (Text × Text) → Text
  bundle_digest files = bundle.sha256 (digested files)

  abbrev pub is_bundled : Text → Bool
  is_bundled path = any (λ f. text_eq path f.0) bundle.bundled_files

  abbrev pub retain_bundled : List (Text × Text) → List (Text × Text)
  retain_bundled [] = []
  retain_bundled (e ∷ more) =
      let rest = retain_bundled more in if is_bundled e.0 then e ∷ rest else rest

  abbrev pub candidate_base : Text → Text
  candidate_base path =
      lit ".tactus/skill-updates/" ++ (bundle_digest bundle.bundled_files ++ (lit "/" ++ path))

  -- The manifest that a run starts with.
  abbrev pub load_manifest : Option Text → Result Text Manifest
  load_manifest none = ok (record { api = manifest_api; files = [] })
  load_manifest (some bytes) = bundle.from_slice bytes

  abbrev pub accept_manifest : Result Text Manifest → Result Text Manifest
  accept_manifest (err e) = err (lit "cannot read the manifest: " ++ e)
  accept_manifest (ok m) =
      if not (text_eq m.api manifest_api) || not (valid_hashes m.files)
      then err (
          lit "unsupported or invalid " ++ (manifest_path ++ lit "; preserve it for manual review"))
      else ok (record m { files = retain_bundled m.files })

  -- The hashes under which the current content is one that the runtime has distributed.
  abbrev pub is_known : List (Text × Text) → Text → Option Text → Bool
  is_known files path none = false
  is_known files path (some content) =
      is_same (content_hash content) (recorded path files)
      || any (λ h. text_eq h (content_hash content)) (bundle.legacy_hashes path)

  abbrev pub matches_bundle : Text → Option Text → Bool
  matches_bundle incoming =
      is_some_and (λ content. text_eq (content_hash content) (content_hash incoming))

  abbrev pub action_for : InstallMode → List (Text × Text) → Text → Text → Option Text → Action
  action_for mode files path incoming current =
      if not (is_some current)
      then installed
      else if matches_bundle incoming current
      then unchanged
      else if is_update mode && is_known files path current
      then updated
      else preserved

  abbrev pub reason_for : InstallMode → Action → Text
  reason_for mode installed = lit "bundled file is missing"
  reason_for mode unchanged = lit "already matches the bundled version"
  reason_for mode updated = lit "matches its recorded baseline or a known legacy release"
  reason_for initialize action = lit "initialization preserves existing files"
  reason_for update action = lit "local content differs from known managed versions"
