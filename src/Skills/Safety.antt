-- ===== src/Skills/Safety.antt =====
-- tactus-runtime/src/skills.rs: which files a run of `reconcile` replaces.
use agenstro.Common.{
  ℕ, Bool, true, ◌&&◌, Option, none, some, Result, ok, err, List, [], ◌∷◌, any, arith, ◌≡◌, refl,
  sym, ap, subst, ◌∙◌, inl, inr, Bool-cases,
}
use agenstro.Common.Text.{Text, text_eq, text_eq→eq}
use agenstro.Skills.{
  Bundle, InstallMode, is_update, content_hash, candidate_base, recorded, manifest_path,
  SkillFileReport,
}
use agenstro.Skills.Files.{
  State, Directory, Write, Interference, read_plain, same_content, atomic_write, checked, persist,
  stage, max_manifest_bytes, replace,
}
use agenstro.Skills.Candidates.{candidate_name, laid}
use agenstro.Skills.Reconcile.{reported}

abbrev pub is_version : List (Text × Text) → Text → Text → Bool
is_version files path content = any (λ f. text_eq path f.0 && text_eq content f.1) files

abbrev pub Each {ℓ} : (Write → Type ℓ) → List Write → Type ℓ
Each P [] = Unit
Each P (w ∷ more) = P w × Each P more

same_content→eq : (a b : Option Text) → same_content a b ≡ true → a ≡ b
same_content→eq none none h = refl
same_content→eq (some a) (some b) h = ap some (text_eq→eq a b h)
same_content→eq none (some b) h = cc
same_content→eq (some a) none h = cc

read_plain-eq-ok :
    (dir : Directory) (path : Text) (limit : ℕ) (s : State) (now : Option Text)
    → read_plain dir path limit s.disk ≡ ok now
    → now ≡ s.disk path
unfolding read_plain
read_plain-eq-ok dir path limit s now h = ground arith

module _ (Q : State → Type 0) where
  checked-Each :
      (expected : Option Text) (reason : Text) (q : Result Text (Option Text)) (s : State)
      (next : State × Result Text (Unit {0}))
      → Q s
      → ((now : Option Text) → q ≡ ok now → now ≡ expected → Q next.0)
      → Q (checked expected reason q s next).0
  checked-Each expected reason (err e) s next here there = here
  checked-Each expected reason (ok now) s next here there =
      elim (Bool-cases (same_content now expected)) [
        | inl h ↦ simp h (there now refl (same_content→eq now expected h))
        | inr h ↦ simp h here
      ]

  pub laid-Each :
      (dir : Directory) (to_text : ℕ → Text) (base content : Text) (dry_run : Bool) (name : Text)
      (r : State × Result Text (Unit {0}))
      → Q r.0
      → Q (laid dir to_text base content dry_run name r).0
  laid-Each dir to_text base content dry_run name (s, err e) h = h
  laid-Each dir to_text base content dry_run name (s, ok u) h = h

  pub reported-Each :
      (dir : Directory) (bundle : Bundle) (mode : InstallMode) (dry_run changed : Bool)
      (files : List SkillFileReport) (r : State × Result Text (Unit {0}))
      → Q r.0
      → Q (reported dir bundle mode dry_run changed files r).0
  reported-Each dir bundle mode dry_run changed files (s, err e) h = h
  reported-Each dir bundle mode dry_run changed files (s, ok u) h = h

module _ (P : Write → Type 0) where
  abbrev pub Holds : State → Type 0
  Holds s = Each P s.writes

  module _ (dir : Directory) (path bytes : Text) (expected : Option Text) where
    persist-Each :
        P (record { path = path; old = expected; new = bytes })
        → (s : State) → Holds s
        → Holds (persist dir path bytes expected s).0
    persist-Each p s h =
        checked-Each Holds expected _ (read_plain dir path max_manifest_bytes s.disk) s
          (replace path bytes s, ok tt) h
          (λ now r e. (
            subst (λ (o : Option Text). P (record { path = path; old = o; new = bytes }))
                (sym e ∙ read_plain-eq-ok dir path max_manifest_bytes s now r) p,
            h,
          ))

    stage-Each :
        P (record { path = path; old = expected; new = bytes })
        → (s : State) (later : List Interference) → Holds s
        → Holds (stage dir path bytes expected s later).0
    stage-Each p s [] h = persist-Each p s h
    stage-Each p s (i ∷ more) h =
        elim i.staged
          as (λ q.
            Holds
              (elim q as (λ q. State × Result Text (Unit {0})) [
                | err e ↦ (record s { disk = i.edit s.disk; later = more }, err e)
                | ok u ↦
                    persist dir path bytes expected
                      (record s { disk = i.edit s.disk; later = more })
              ]).0) [
                | err e ↦ h
                | ok u ↦ persist-Each p (record s { disk = i.edit s.disk; later = more }) h
              ]

    pub atomic_write-Each :
        P (record { path = path; old = expected; new = bytes })
        → (s : State) → Holds s
        → Holds (atomic_write dir path bytes expected s).0
    unfolding atomic_write
    atomic_write-Each p s h =
        checked-Each Holds expected _ (read_plain dir path max_manifest_bytes s.disk) s
          (stage dir path bytes expected s s.later) h (λ now r e. stage-Each p s s.later h)

-- The hashes of what the runtime has distributed under a path: what the manifest records, a release of
-- old, and a bundled version.
pub data IsDistributed (bundle : Bundle) (entries : List (Text × Text)) (path hash : Text)
    : Type 0 where
  baseline : recorded path entries ≡ some hash → IsDistributed bundle entries path hash
  legacy :
      any (λ h. text_eq h hash) (bundle.legacy_hashes path) ≡ true
      → IsDistributed bundle entries path hash
  bundled :
      (content : Text)
      → is_version bundle.bundled_files path content ≡ true
      → hash ≡ content_hash bundle content
      → IsDistributed bundle entries path hash

-- What a run may write: a bundled file where none is, the newer version of a file that holds what the
-- runtime distributed, the incoming version beside a local one, and the manifest it read.
pub data IsAllowed (bundle : Bundle) (mode : InstallMode) (previous : Option Text)
    (entries : List (Text × Text)) (path new : Text) (old : Option Text) : Type 0 where
  install :
      is_version bundle.bundled_files path new ≡ true
      → old ≡ none
      → IsAllowed bundle mode previous entries path new old
  upgrade :
      is_update mode ≡ true
      → is_version bundle.bundled_files path new ≡ true
      → (content : Text) → old ≡ some content
      → IsDistributed bundle entries path (content_hash bundle content)
      → IsAllowed bundle mode previous entries path new old
  candidate :
      is_update mode ≡ true
      → (target : Text) → is_version bundle.bundled_files target new ≡ true
      → (index : ℕ) → path ≡ candidate_name bundle.to_text (candidate_base bundle target) index
      → old ≡ none
      → IsAllowed bundle mode previous entries path new old
  manifest :
      path ≡ manifest_path → old ≡ previous → IsAllowed bundle mode previous entries path new old
