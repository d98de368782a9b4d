-- ===== src/Skills/Known.antt =====
-- tactus-runtime/src/skills.rs: what the choice of an action says about the content on disk.
use agenstro.Common.{
  Bool, true, false, ◌&&◌, Option, none, some, List, [], ◌∷◌, arith, ◌≡◌, refl, ap, ◌⊎◌, inl, inr,
  Bool-cases, if◌then◌else◌,
}
use agenstro.Common.Text.{Text, text_eq, text_eq→eq, text_eq_refl}
use agenstro.Skills.{
  Bundle, InstallMode, is_update, is_writing, content_hash, recorded, record_hash, action_for,
  updated, unchanged, preserved, matches_bundle, is_known, is_same,
}
use agenstro.Skills.Safety.{IsDistributed, legacy, is_version}

pub recorded-record_hash :
    (path key hash g : Text) (files : List (Text × Text))
    → recorded key (record_hash path hash files) ≡ some g
    → ((path ≡ key) × (hash ≡ g)) ⊎ (recorded key files ≡ some g)
recorded-record_hash path key hash g [] h =
    let e : text_eq path key ≡ true → path ≡ key = text_eq→eq path key in ground (arith, e)
recorded-record_hash path key hash g ((k, old) ∷ more) h =
    let ih = recorded-record_hash path key hash g more in
    let same : text_eq k path ≡ true → k ≡ path = text_eq→eq k path in
    let found : text_eq k key ≡ true → k ≡ key = text_eq→eq k key in ground (arith, ih, same, found)

is_same-eq : (hash : Text) (o : Option Text) → is_same hash o ≡ true → o ≡ some hash
is_same-eq hash none h = cc
is_same-eq hash (some g) h = ap some (text_eq→eq g hash h)

pub is_known-IsDistributed :
    (bundle : Bundle) (original entries : List (Text × Text)) (path content : Text)
    → ((h : Text) → recorded path entries ≡ some h → IsDistributed bundle original path h)
    → is_known bundle entries path (some content) ≡ true
    → IsDistributed bundle original path (content_hash bundle content)
is_known-IsDistributed bundle original entries path content known h =
    elim (Bool-cases (is_same (content_hash bundle content) (recorded path entries))) [
      | inl same ↦ known _ (is_same-eq _ (recorded path entries) same)
      | inr other ↦ legacy (ground arith)
    ]

updated_when :
    (matching updating known : Bool)
    → is_writing (if matching then unchanged else if updating && known then updated else preserved)
      ≡ true
    → (updating ≡ true) × (known ≡ true)
updated_when true _ _ h = cc
updated_when false true true h = (refl, refl)
updated_when false true false h = cc
updated_when false false _ h = cc

-- An action that writes does so over nothing, or in an update over known content.
pub action_for-eq :
    (bundle : Bundle) (mode : InstallMode) (entries : List (Text × Text)) (path incoming : Text)
    (current : Option Text)
    → is_writing (action_for bundle mode entries path incoming current) ≡ true
    → (current ≡ none)
      ⊎ ((content : Text) × (current ≡ some content)
          × (is_update mode ≡ true)
          × (is_known bundle entries path current ≡ true))
action_for-eq bundle mode entries path incoming none h = inl refl
action_for-eq bundle mode entries path incoming (some content) h =
    let u =
      updated_when (matches_bundle bundle incoming (some content)) (is_update mode)
        (is_known bundle entries path (some content)) h in
    inr (content, refl, u.0, u.1)

pub is_version-head :
    (path content : Text) (more : List (Text × Text))
    → is_version ((path, content) ∷ more) path content ≡ true
is_version-head path content more = rw (text_eq_refl path, text_eq_refl content) refl

pub is_version-tail :
    (f : Text × Text) (more : List (Text × Text)) (path content : Text)
    → is_version more path content ≡ true
    → is_version (f ∷ more) path content ≡ true
is_version-tail f more path content h = ground arith
