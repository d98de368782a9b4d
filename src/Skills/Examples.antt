-- ===== src/Skills/Examples.antt =====
-- tactus-runtime/src/skills.rs: a run on a small bundle, and the hypotheses of the theorem there.
use agenstro.Common.{
  ℕ, false, none, some, Result, ok, err, List, [], ◌∷◌, ◌≡◌, refl, length, if◌then◌else◌, map,
}
use agenstro.Common.Text.{Text, lit, text_eq}
use agenstro.Skills.{
  Bundle, Manifest, update, Action, installed, updated, preserved, manifest_path, manifest_api,
  normalize_newlines, accept_manifest, load_manifest, content_hash, bundle_digest,
  SkillUpdateReport,
}
use agenstro.Skills.Files.{Disk, State, Directory, read_plain, atomic_write, max_manifest_bytes}
use agenstro.Skills.Candidates.{write_candidate}
use agenstro.Skills.Reconcile.{reconcile, reconcile_file, reconcile_files}
use agenstro.Skills.Safety.{Each, IsAllowed}
use agenstro.Skills.Writes.{reconcile-writes}

abbrev old_hash : Text
old_hash = lit "0123456789abcdef0123456789abcdef0123456789abcdef0123456789abcdef"

abbrev baseline_manifest : Manifest
baseline_manifest = record { api = manifest_api; files = (lit "a", old_hash) ∷ [] }

-- The file `a` stands as it was installed, `b` was edited, and `c` is missing.
abbrev small_bundle : Bundle
small_bundle = record {
  bundled_files = (lit "a", lit "new") ∷ ((lit "b", lit "new") ∷ ((lit "c", lit "new") ∷ []));
  legacy_hashes = λ p. [];
  sha256 = λ t. if text_eq t (lit "old") then old_hash else t;
  from_slice = λ t. ok baseline_manifest;
  to_vec_pretty = λ m. lit "{}";
  to_text = λ n. n ∷ [];
}

abbrev small_disk : Disk
small_disk p =
    if text_eq p manifest_path
    then some (lit "m")
    else if text_eq p (lit "a")
    then some (lit "old")
    else if text_eq p (lit "b")
    then some (lit "mine")
    else none

abbrev plain : Directory
plain = record { linked = λ p. none; special = λ p. none }

abbrev start : State
start = record { disk = small_disk; writes = []; later = [] }

abbrev action_code : Action → ℕ
action_code installed = 1
action_code updated = 2
action_code preserved = 3
action_code _ = 0

abbrev action_codes : Result Text SkillUpdateReport → List ℕ
action_codes (err e) = []
action_codes (ok r) = map (λ f. action_code f.action) r.files

reconcile_small :
    action_codes (reconcile plain small_bundle update false start).1 ≡ 2 ∷ (3 ∷ (1 ∷ []))
unfolding reconcile reconcile_files reconcile_file read_plain text_eq content_hash bundle_digest
    normalize_newlines atomic_write write_candidate
reconcile_small = refl

reconcile_small_writes : length (reconcile plain small_bundle update false start).0.writes ≡ 4
unfolding reconcile reconcile_files reconcile_file read_plain text_eq content_hash bundle_digest
    normalize_newlines atomic_write write_candidate
reconcile_small_writes = refl

read_small : read_plain plain manifest_path max_manifest_bytes small_disk ≡ ok (some (lit "m"))
unfolding read_plain text_eq
read_small = refl

accept_small :
    accept_manifest small_bundle (load_manifest small_bundle (some (lit "m")))
    ≡ ok baseline_manifest
unfolding text_eq
accept_small = refl

reconcile-writes_example :
    Each
      (λ w.
        (false ≡ false)
        × IsAllowed small_bundle update (some (lit "m")) baseline_manifest.files w.path w.new w.old)
      (reconcile plain small_bundle update false start).0.writes
reconcile-writes_example =
    reconcile-writes plain small_bundle update false (some (lit "m")) baseline_manifest start
      read_small accept_small refl
