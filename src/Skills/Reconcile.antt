-- ===== src/Skills/Reconcile.antt =====
-- tactus-runtime/src/skills.rs: the run over the bundled files, with its reports and the manifest it
-- leaves. The caller holds the lock, so no other run writes the same files.
use agenstro.Common.{
  Bool, ◌&&◌, not, Option, none, some, Result, ok, err, List, [], ◌∷◌, ◌++◌, if◌then◌else◌,
}
use agenstro.Common.Text.{Text}
use agenstro.Skills.{
  Bundle, InstallMode, Action, skipped, SkillFileReport, SkillUpdateReport, Manifest, manifest_api,
  manifest_path, is_update, is_managed, is_writing, record_hash, bundle_digest, content_hash,
  candidate_base, action_for, reason_for, accept_manifest, load_manifest,
}
use agenstro.Skills.Files.{
  State, Directory, read_plain, same_content, atomic_write, max_file_bytes, max_manifest_bytes,
}
use agenstro.Skills.Candidates.{write_candidate}

-- The state, the manifest's entries and the reports so far, the latest first.
pub record Progress : Type 0 where
  pub state : State
  pub files : List (Text × Text)
  pub reports : List SkillFileReport

module _ (dir : Directory) (bundle : Bundle) (mode : InstallMode) (dry_run : Bool) where
  abbrev pub write_when : Bool → Text → Text → Option Text → State → State × Result Text (Unit {0})
  write_when b path bytes expected s =
      if b && not dry_run then atomic_write dir path bytes expected s else (s, ok tt)

  abbrev pub with_candidate :
      Progress → SkillFileReport → State × Result Text Text → Progress × Result Text (Unit {0})
  with_candidate p entry (s, err e) = (record p { state = s }, err e)
  with_candidate p entry (s, ok name) =
      (record p { state = s; reports = record entry { candidate = some name } ∷ p.reports }, ok tt)

  abbrev pub new_report : Text → Action → SkillFileReport
  new_report path action = record {
    path = path;
    action = action;
    reason = reason_for bundle mode action;
    candidate = none;
  }

  abbrev pub push_report : Progress → SkillFileReport → Progress × Result Text (Unit {0})
  push_report p entry = (record p { reports = entry ∷ p.reports }, ok tt)

  -- What follows the write: the entry of a managed file, or the candidate beside a preserved one.
  abbrev pub manage_file :
      Progress
      → Text
      → Text
      → Action
      → State × Result Text (Unit {0})
      → Progress × Result Text (Unit {0})
  manage_file p path content action (s, err e) = (record p { state = s }, err e)
  manage_file p path content action (s, ok u) =
      let q : Progress = record p { state = s } in
      let entry = new_report path action in
      if is_managed action
      then push_report (record q { files = record_hash path (content_hash bundle content) p.files })
          entry
      else if is_update mode
      then with_candidate q entry
          (write_candidate dir bundle.to_text (candidate_base bundle path) content dry_run s)
      else push_report q entry

  abbrev pub reconcile_current :
      Progress → Text → Text → Result Text (Option Text) → Progress × Result Text (Unit {0})
  reconcile_current p path content (err e) =
      push_report p (record { path = path; action = skipped; reason = e; candidate = none })
  reconcile_current p path content (ok current) =
      let action = action_for bundle mode p.files path content current in
      manage_file p path content action
        (write_when (is_writing action) path content current p.state)

  unfoldable pub reconcile_file : Progress → Text × Text → Progress × Result Text (Unit {0})
  unfolding content_hash bundle_digest read_plain atomic_write write_candidate
  reconcile_file p (path, content) =
      reconcile_current p path content (read_plain dir path max_file_bytes p.state.disk)

  abbrev pub and_rest :
      Progress × Result Text (Unit {0})
      → (Progress → Progress × Result Text (Unit {0}))
      → Progress × Result Text (Unit {0})
  and_rest (p, err e) rest = (p, err e)
  and_rest (p, ok u) rest = rest p

  unfoldable pub reconcile_files : List (Text × Text) → Progress → Progress × Result Text (Unit {0})
  unfolding reconcile_file
  reconcile_files [] p = (p, ok tt)
  reconcile_files (f ∷ more) p = and_rest (reconcile_file p f) (reconcile_files more)

  abbrev pub reported :
      Bool
      → List SkillFileReport
      → State × Result Text (Unit {0})
      → State × Result Text SkillUpdateReport
  reported changed files (s, err e) = (s, err e)
  reported changed files (s, ok u) = (
    s,
    ok (record {
      dry_run = dry_run;
      bundle_id = bundle_digest bundle bundle.bundled_files;
      manifest_changed = changed;
      files = files;
    }),
  )

  abbrev pub in_order : List SkillFileReport → List SkillFileReport → List SkillFileReport
  in_order [] out = out
  in_order (r ∷ more) out = in_order more (r ∷ out)

  -- The manifest is written when it differs from what was read.
  abbrev pub finish_manifest :
      Option Text → Progress × Result Text (Unit {0}) → State × Result Text SkillUpdateReport
  finish_manifest previous (p, err e) = (p.state, err e)
  finish_manifest previous (p, ok u) =
      let bytes =
        bundle.to_vec_pretty (record { api = manifest_api; files = p.files }) ++ (10 ∷ []) in
      let changed = not (same_content previous (some bytes)) in
      reported changed (in_order p.reports [])
        (write_when changed manifest_path bytes previous p.state)

  abbrev pub reconcile_with :
      State → Option Text → Result Text Manifest → State × Result Text SkillUpdateReport
  reconcile_with s previous (err e) = (s, err e)
  reconcile_with s previous (ok m) =
      finish_manifest previous
        (reconcile_files bundle.bundled_files (record { state = s; files = m.files; reports = [] }))

  abbrev pub reconcile_from :
      State → Result Text (Option Text) → State × Result Text SkillUpdateReport
  reconcile_from s (err e) = (s, err e)
  reconcile_from s (ok previous) =
      reconcile_with s previous (accept_manifest bundle (load_manifest bundle previous))

  unfoldable pub reconcile : State → State × Result Text SkillUpdateReport
  unfolding read_plain reconcile_files
  reconcile s = reconcile_from s (read_plain dir manifest_path max_manifest_bytes s.disk)
