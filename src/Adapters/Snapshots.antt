-- ===== src/Adapters/Snapshots.antt =====
-- tactus-runtime/src/adapters.rs: the snapshots of a workspace and the difference of two of them. A
-- `BTreeMap` is its list of entries, whose keys are distinct.
pub mod Differences
pub mod Classes
use agenstro.Common.{
  ℕ, Bool, true, false, ◌&&◌, ◌||◌, not, Option, none, some, is_some, List, [], ◌∷◌, ◌++◌, ◌==◌,
  any, if◌then◌else◌,
}
use agenstro.Common.Text.{Text, lit, text_eq}
use agenstro.Common.Search.{starts_with}

pub data PathKind : Type 0 where
  file directory symlink other : PathKind

abbrev pub same_kind : PathKind → PathKind → Bool
same_kind file file = true
same_kind directory directory = true
same_kind symlink symlink = true
same_kind other other = true
same_kind _ _ = false

pub record PathMetadata : Type 0 where
  pub kind : PathKind
  pub size : ℕ
  pub sha256 : Option Text

abbrev pub same_digest : Option Text → Option Text → Bool
same_digest none none = true
same_digest (some a) (some b) = text_eq a b
same_digest _ _ = false

-- `PartialEq` of `PathMetadata`.
abbrev pub same_metadata : PathMetadata → PathMetadata → Bool
same_metadata a b = same_kind a.kind b.kind && (a.size == b.size && same_digest a.sha256 b.sha256)

abbrev pub Paths : Type 0
Paths = List (Text × PathMetadata)

pub record WorkspaceSnapshot : Type 0 where
  pub workspace : Text
  pub paths : Paths
  pub skipped_paths : List Text

unfoldable pub lookup : Text → Paths → Option PathMetadata
lookup path [] = none
lookup path ((key, m) ∷ rest) = if text_eq key path then some m else lookup path rest

-- `cfg!(windows)`, and `str::to_lowercase`.
pub record Platform : Type 0 where
  pub windows : Bool
  pub to_lowercase : Text → Text

abbrev pub normalize_relative : Platform → Text → Text
normalize_relative c value = if c.windows then c.to_lowercase value else value

abbrev pub covers : Platform → Text → Text → Bool
covers c path skipped =
    text_eq path (normalize_relative c skipped)
    || starts_with (normalize_relative c skipped ++ lit "/") path

unfoldable pub snapshot_path_was_skipped :
    Platform → WorkspaceSnapshot → WorkspaceSnapshot → Text → Bool
snapshot_path_was_skipped c before after path =
    any (covers c (normalize_relative c path)) (before.skipped_paths ++ after.skipped_paths)

pub data Change : Type 0 where
  unchanged added modified type_changed : Change

-- The match on `before.paths.get(path)`.
abbrev pub change : Option PathMetadata → PathMetadata → Change
change none new = added
change (some old) new =
    if not (same_kind old.kind new.kind)
    then type_changed
    else if not (same_metadata old new)
    then modified
    else unchanged

pub record Delta : Type 0 where
  pub added : List Text
  pub modified : List Text
  pub deleted : List Text
  pub type_changed : List Text

abbrev pub push_change : Change → Text → Delta → Delta
push_change Change.unchanged path d = d
push_change Change.added path d = record d { added = path ∷ d.added }
push_change Change.modified path d = record d { modified = path ∷ d.modified }
push_change Change.type_changed path d = record d { type_changed = path ∷ d.type_changed }

module _ (c : Platform) (before after : WorkspaceSnapshot) where
  abbrev pub deleted_paths : Paths → List Text
  deleted_paths [] = []
  deleted_paths ((path, m) ∷ rest) =
      let more = deleted_paths rest in
      if not (snapshot_path_was_skipped c before after path)
        && not (is_some (lookup path after.paths))
      then path ∷ more
      else more

  abbrev pub changed_paths : Paths → Delta
  changed_paths [] = record {
    added = [];
    modified = [];
    deleted = deleted_paths before.paths;
    type_changed = [];
  }
  changed_paths ((path, new) ∷ rest) =
      let more = changed_paths rest in
      if snapshot_path_was_skipped c before after path
      then more
      else push_change (change (lookup path before.paths) new) path more

  unfoldable pub snapshot_delta : Delta
  snapshot_delta = changed_paths after.paths
