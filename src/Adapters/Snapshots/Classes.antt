-- ===== src/Adapters/Snapshots/Classes.antt =====
-- The lists of `snapshot_delta` of tactus-runtime/src/adapters.rs, by what a path is in two snapshots.
use agenstro.Common.{
  ◌≡◌, refl, sym, ◌∙◌, Bool, true, false, ◌&&◌, ◌||◌, not, Option, none, some, is_some, is_some_and,
  List, [], ◌∷◌, ◌++◌, any, arith, ◌==◌,
}
use agenstro.Common.Text.{Text, lit, text_eq}
use agenstro.Common.Search.{starts_with}
use agenstro.Adapters.Snapshots.{
  PathMetadata, WorkspaceSnapshot, lookup, Platform, normalize_relative, covers,
  snapshot_path_was_skipped, same_kind, same_digest, change, snapshot_delta,
}
use agenstro.Adapters.Snapshots.Differences.{
  contains, are_distinct, is_added, is_modified, is_type_changed, snapshot_delta-select,
}

-- A path is a directory or lies in it: a slash follows the directory's text.
unfoldable pub is_within : Text → Text → Bool
is_within [] [] = true
is_within [] (b ∷ path) = b == 47
is_within (a ∷ directory) [] = false
is_within (a ∷ directory) (b ∷ path) = let rest = is_within directory path in a == b && rest

is_within-covers :
    (path directory : Text)
    → (text_eq path directory || starts_with (directory ++ lit "/") path) ≡ is_within directory path
unfolding is_within text_eq starts_with
is_within-covers [] [] = refl
is_within-covers (b ∷ path) [] = ground arith
is_within-covers [] (a ∷ directory) = refl
is_within-covers (b ∷ path) (a ∷ directory) =
    let ih = is_within-covers path directory in ground (arith, ih)

module _ (c : Platform) where
  -- The snapshot left the path out, or a directory that it is in.
  abbrev pub is_left_out : WorkspaceSnapshot → Text → Bool
  is_left_out s path =
      any (λ skipped. is_within (normalize_relative c skipped) (normalize_relative c path))
        s.skipped_paths

  any-append : (p : Text → Bool) (xs ys : List Text) → any p (xs ++ ys) ≡ (any p xs || any p ys)
  any-append p [] ys = refl
  any-append p (x ∷ xs) ys = let ih = any-append p xs ys in ground arith

  any-covers :
      (path : Text) (xs : List Text)
      → any (covers c (normalize_relative c path)) xs
        ≡ any (λ skipped. is_within (normalize_relative c skipped) (normalize_relative c path)) xs
  any-covers path [] = refl
  any-covers path (x ∷ xs) =
      let ih = any-covers path xs in
      let one = is_within-covers (normalize_relative c path) (normalize_relative c x) in
      rw (ih, one) refl

  skipped-left_out :
      (before after : WorkspaceSnapshot) (path : Text)
      → snapshot_path_was_skipped c before after path
        ≡ (is_left_out before path || is_left_out after path)
  unfolding snapshot_path_was_skipped
  skipped-left_out before after path =
      any-append (covers c (normalize_relative c path)) before.skipped_paths after.skipped_paths
      ∙ rw (any-covers path before.skipped_paths, any-covers path after.skipped_paths) refl

-- What a path can be in two snapshots that both looked at it.
abbrev pub is_only_second : Option PathMetadata → Option PathMetadata → Bool
is_only_second old new = not (is_some old) && is_some new

abbrev pub has_new_kind : Option PathMetadata → Option PathMetadata → Bool
has_new_kind (some old) (some new) = not (same_kind old.kind new.kind)
has_new_kind _ _ = false

abbrev pub has_new_content : Option PathMetadata → Option PathMetadata → Bool
has_new_content (some old) (some new) =
    same_kind old.kind new.kind
    && (not (old.size == new.size) || not (same_digest old.sha256 new.sha256))
has_new_content _ _ = false

abbrev pub is_only_first : Option PathMetadata → Option PathMetadata → Bool
is_only_first old new = is_some old && not (is_some new)

added-only :
    (b : Bool) (old new : Option PathMetadata)
    → is_some_and (λ m. not b && is_added (change old m)) new ≡ (not b && is_only_second old new)
added-only b none none = ground arith
added-only b (some o) none = ground arith
added-only b none (some m) = ground arith
added-only b (some o) (some m) = ground arith

modified-content :
    (b : Bool) (old new : Option PathMetadata)
    → is_some_and (λ m. not b && is_modified (change old m)) new
      ≡ (not b && has_new_content old new)
modified-content b none none = ground arith
modified-content b (some o) none = ground arith
modified-content b none (some m) = ground arith
modified-content b (some o) (some m) = ground arith

type_changed-kind :
    (b : Bool) (old new : Option PathMetadata)
    → is_some_and (λ m. not b && is_type_changed (change old m)) new
      ≡ (not b && has_new_kind old new)
type_changed-kind b none none = ground arith
type_changed-kind b (some o) none = ground arith
type_changed-kind b none (some m) = ground arith
type_changed-kind b (some o) (some m) = ground arith

deleted-only :
    (b : Bool) (old new : Option PathMetadata)
    → is_some_and (λ m. not b && not (is_some new)) old ≡ (not b && is_only_first old new)
deleted-only b none new = ground arith
deleted-only b (some o) new = ground arith

-- A path is added when only the second snapshot has it, type-changed when both have it with
-- different kinds, modified when both have it with one kind and another size or digest, and deleted
-- when only the first has it; and each list holds no other path. A path is in no list when one of the
-- snapshots left out the path or a directory that it is in. The paths of a snapshot are distinct.
pub delta-lists :
    (c : Platform) (before after : WorkspaceSnapshot) (path : Text)
    → are_distinct before.paths ≡ true
    → are_distinct after.paths ≡ true
    → let delta = snapshot_delta c before after in
      let old = lookup path before.paths in
      let new = lookup path after.paths in
      let seen_by_both = not (is_left_out c before path || is_left_out c after path) in
      (contains path delta.added ≡ (seen_by_both && is_only_second old new))
      × (contains path delta.modified ≡ (seen_by_both && has_new_content old new))
      × (contains path delta.type_changed ≡ (seen_by_both && has_new_kind old new))
      × (contains path delta.deleted ≡ (seen_by_both && is_only_first old new))
delta-lists c before after path h k =
    let old = lookup path before.paths in
    let new = lookup path after.paths in
    let skipped = snapshot_path_was_skipped c before after path in
    let (added, modified, type_changed, deleted) = snapshot_delta-select c before after path h k in
    let same = skipped-left_out c before after path in
    rw (sym same) (
      added ∙ added-only skipped old new,
      modified ∙ modified-content skipped old new,
      type_changed ∙ type_changed-kind skipped old new,
      deleted ∙ deleted-only skipped old new,
    )
