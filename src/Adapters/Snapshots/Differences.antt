-- ===== src/Adapters/Snapshots/Differences.antt =====
-- Which of the lists of a difference a path is in.
use agenstro.Common.{
  ◌≡◌, refl, ap, subst, ◌∙◌, inl, inr, Bool, true, false, ◌&&◌, not, Option, none, some, is_some,
  is_some_and, List, [], ◌∷◌, any, arith, Bool-cases, if◌then◌else◌,
}
use agenstro.Common.Text.{Text, text_eq, text_eq→eq}
use agenstro.Adapters.Snapshots.{
  PathMetadata, Paths, WorkspaceSnapshot, lookup, Platform, snapshot_path_was_skipped, Change,
  change, push_change, Delta, deleted_paths, changed_paths, snapshot_delta,
}

abbrev pub contains : Text → List Text → Bool
contains path = any (λ p. text_eq p path)

-- The keys of a map are distinct.
abbrev pub are_distinct : Paths → Bool
are_distinct [] = true
are_distinct ((key, m) ∷ rest) = not (is_some (lookup key rest)) && are_distinct rest

abbrev pub is_added : Change → Bool
is_added Change.added = true
is_added _ = false

abbrev pub is_modified : Change → Bool
is_modified Change.modified = true
is_modified _ = false

abbrev pub is_type_changed : Change → Bool
is_type_changed Change.type_changed = true
is_type_changed _ = false

-- The paths whose entries satisfy a test, and which of them are there.
abbrev select : (Text → PathMetadata → Bool) → Paths → List Text
select p [] = []
select p ((key, m) ∷ rest) = let more = select p rest in if p key m then key ∷ more else more

select-absent :
    (p : Text → PathMetadata → Bool) (path : Text) (entries : Paths)
    → lookup path entries ≡ none
    → contains path (select p entries) ≡ false
unfolding lookup
select-absent p path [] h = refl
select-absent p path ((key, m) ∷ rest) h =
    let other : text_eq key path ≡ false = ground arith in
    let rec : contains path (select p rest) ≡ false = select-absent p path rest (ground arith) in
    elim (Bool-cases (p key m)) [
      | inl chosen ↦ rw (chosen, other) rec
      | inr left_out ↦ rw left_out rec
    ]

absent : {A : Type 0} (o : Option A) → is_some o ≡ false → o ≡ none
absent none h = refl
absent (some a) h = cc h

first_only :
    (path key : Text) (b : Bool) (rest : List Text)
    → text_eq key path ≡ true
    → contains path rest ≡ false
    → contains path (if b then key ∷ rest else rest) ≡ b
first_only path key true rest h k = rw h refl
first_only path key false rest h k = k

skip_first :
    (path key : Text) (b : Bool) (rest : List Text)
    → text_eq key path ≡ false
    → contains path (if b then key ∷ rest else rest) ≡ contains path rest
skip_first path key true rest h = rw h refl
skip_first path key false rest h = refl

select-contains :
    (p : Text → PathMetadata → Bool) (path : Text) (entries : Paths)
    → are_distinct entries ≡ true
    → contains path (select p entries) ≡ is_some_and (p path) (lookup path entries)
unfolding lookup
select-contains p path [] h = refl
select-contains p path ((key, m) ∷ rest) h = elim (Bool-cases (text_eq key path)) [
  | inl here ↦
      let same : key ≡ path = text_eq→eq key path here in
      let gone : contains path (select p rest) ≡ false =
        select-absent p path rest
          (subst (λ k. lookup k rest ≡ none) same (absent (lookup key rest) (ground (arith, h)))) in
      rw here (first_only path key (p key m) (select p rest) here gone ∙ ap (λ k. p k m) same)
  | inr there ↦ rw there (
      skip_first path key (p key m) (select p rest) there
      ∙ select-contains p path rest (ground (arith, h)))
]

module _ (c : Platform) (before after : WorkspaceSnapshot) where
  abbrev pub seen : (Change → Bool) → Text → PathMetadata → Bool
  seen kind path m =
      not (snapshot_path_was_skipped c before after path)
      && kind (change (lookup path before.paths) m)

  list-select :
      (list : Delta → List Text) (kind : Change → Bool)
      → ((ch : Change) (path : Text) (d : Delta)
          → list (push_change ch path d) ≡ (if kind ch then path ∷ list d else list d))
      → list (changed_paths c before after []) ≡ []
      → (entries : Paths) → list (changed_paths c before after entries) ≡ select (seen kind) entries
  list-select list kind law start [] = start
  list-select list kind law start ((path, m) ∷ rest) =
      by_skip (snapshot_path_was_skipped c before after path) (list-select list kind law start rest)
    where
      by_skip :
          (b : Bool)
          → list (changed_paths c before after rest) ≡ select (seen kind) rest
          → list (
              if b
              then changed_paths c before after rest
              else push_change
                  (change (lookup path before.paths) m)
                  path
                  (changed_paths c before after rest))
            ≡ (if not b && kind (change (lookup path before.paths) m)
                then path ∷ select (seen kind) rest
                else select (seen kind) rest)
      by_skip true rec = rec
      by_skip false rec =
          law (change (lookup path before.paths) m) path (changed_paths c before after rest)
          ∙ ap (λ t. if kind (change (lookup path before.paths) m) then path ∷ t else t) rec

  abbrev pub gone : Text → PathMetadata → Bool
  gone path m =
      not (snapshot_path_was_skipped c before after path) && not (is_some (lookup path after.paths))

  deleted-select : (entries : Paths) → deleted_paths c before after entries ≡ select gone entries
  deleted-select [] = refl
  deleted-select ((path, m) ∷ rest) =
      ap (λ t. if gone path m then path ∷ t else t) (deleted-select rest)

  push-deleted :
      (ch : Change) (path : Text) (d : Delta) → (push_change ch path d).deleted ≡ d.deleted
  push-deleted Change.unchanged path d = refl
  push-deleted Change.added path d = refl
  push-deleted Change.modified path d = refl
  push-deleted Change.type_changed path d = refl

  changed-deleted :
      (entries : Paths)
      → (changed_paths c before after entries).deleted ≡ deleted_paths c before after before.paths
  changed-deleted [] = refl
  changed-deleted ((path, m) ∷ rest) =
      by_skip (snapshot_path_was_skipped c before after path) (changed-deleted rest)
    where
      by_skip :
          (b : Bool)
          → (changed_paths c before after rest).deleted ≡ deleted_paths c before after before.paths
          → (if b
              then changed_paths c before after rest
              else push_change
                  (change (lookup path before.paths) m)
                  path
                  (changed_paths c before after rest)).deleted
            ≡ deleted_paths c before after before.paths
      by_skip true rec = rec
      by_skip false rec = push-deleted _ path _ ∙ rec

  push-added :
      (ch : Change) (path : Text) (d : Delta)
      → (push_change ch path d).added ≡ (if is_added ch then path ∷ d.added else d.added)
  push-added Change.unchanged path d = refl
  push-added Change.added path d = refl
  push-added Change.modified path d = refl
  push-added Change.type_changed path d = refl

  push-modified :
      (ch : Change) (path : Text) (d : Delta)
      → (push_change ch path d).modified
        ≡ (if is_modified ch then path ∷ d.modified else d.modified)
  push-modified Change.unchanged path d = refl
  push-modified Change.added path d = refl
  push-modified Change.modified path d = refl
  push-modified Change.type_changed path d = refl

  push-type_changed :
      (ch : Change) (path : Text) (d : Delta)
      → (push_change ch path d).type_changed
        ≡ (if is_type_changed ch then path ∷ d.type_changed else d.type_changed)
  push-type_changed Change.unchanged path d = refl
  push-type_changed Change.added path d = refl
  push-type_changed Change.modified path d = refl
  push-type_changed Change.type_changed path d = refl

  -- The lists by the tests of the program.
  pub snapshot_delta-select :
      (path : Text)
      → are_distinct before.paths ≡ true
      → are_distinct after.paths ≡ true
      → let delta = snapshot_delta c before after in
        (contains path delta.added ≡ is_some_and (seen is_added path) (lookup path after.paths))
        × (contains path delta.modified
            ≡ is_some_and (seen is_modified path) (lookup path after.paths))
        × (contains path delta.type_changed
            ≡ is_some_and (seen is_type_changed path) (lookup path after.paths))
        × (contains path delta.deleted ≡ is_some_and (gone path) (lookup path before.paths))
  unfolding snapshot_delta
  snapshot_delta-select path h k = (
    ap (contains path) (list-select (λ d. d.added) is_added push-added refl after.paths)
        ∙ select-contains (seen is_added) path after.paths k,
    ap (contains path) (list-select (λ d. d.modified) is_modified push-modified refl after.paths)
        ∙ select-contains (seen is_modified) path after.paths k,
    ap (contains path)
          (list-select (λ d. d.type_changed) is_type_changed push-type_changed refl after.paths)
        ∙ select-contains (seen is_type_changed) path after.paths k,
    ap (contains path) (changed-deleted after.paths ∙ deleted-select before.paths)
        ∙ select-contains gone path before.paths h,
  )
