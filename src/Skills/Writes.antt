-- ===== src/Skills/Writes.antt =====
-- tactus-runtime/src/skills.rs: a run of `reconcile` stays within what it may write.
use agenstro.Common.{
  ℕ, Bool, true, false, Option, none, some, Result, ok, err, List, [], ◌∷◌, ◌≡◌, refl, sym, subst,
  inl, inr, Bool-cases, ◌-◌, zero, suc,
}
use agenstro.Common.Text.{Text, text_eq}
use agenstro.Skills.{
  Bundle, Manifest, InstallMode, Action, is_update, is_managed, is_writing, content_hash,
  candidate_base, recorded, record_hash, manifest_path, accept_manifest, load_manifest, action_for,
  is_known, SkillFileReport,
}
use agenstro.Skills.Files.{
  State, Directory, Write, read_plain, atomic_write, max_file_bytes, max_manifest_bytes,
}
use agenstro.Skills.Candidates.{candidate_name, lay, tried, try_names, write_candidate}
use agenstro.Skills.Reconcile.{
  Progress, write_when, with_candidate, new_report, manage_file, reconcile_current, reconcile_file,
  and_rest, reconcile_files, finish_manifest, reconcile,
}
use agenstro.Skills.Safety.{
  IsDistributed, baseline, bundled, IsAllowed, install, upgrade, candidate, manifest, is_version,
  laid-Each, reported-Each, Each, Holds, atomic_write-Each,
}
use agenstro.Skills.Known.{
  recorded-record_hash, is_known-IsDistributed, action_for-eq, is_version-head, is_version-tail,
}

-- What every write of the run keeps, for a run that makes writes.
module _ (dir : Directory) (bundle : Bundle) (mode : InstallMode) (dry_run : Bool)
    (previous : Option Text) (original : List (Text × Text)) (Q : State → Type 0)
    (write : dry_run ≡ false
      → (path new : Text) (old : Option Text) → IsAllowed bundle mode previous original path new old
      → (s : State) → Q s
      → Q (atomic_write dir path new old s).0) where
  write_when-Keeps :
      (b : Bool) (path new : Text) (old : Option Text) (s : State)
      → (b ≡ true → IsAllowed bundle mode previous original path new old)
      → Q s
      → Q (write_when dir bundle mode dry_run b path new old s).0
  write_when-Keeps false path new old s allowed q = q
  write_when-Keeps true path new old s allowed q = elim (Bool-cases dry_run) [
    | inl d ↦ rw d q
    | inr d ↦ rw d (write d path new old (allowed refl) s q)
  ]

  module _ (path content : Text) (version : is_version bundle.bundled_files path content ≡ true)
      (updating : is_update mode ≡ true) where
    abbrev base : Text
    base = candidate_base bundle path

    lay-Keeps :
        (s : State) (index : ℕ)
        → Q s
        → Q
            (lay dir bundle.to_text base content dry_run s
              (candidate_name bundle.to_text base index)).0
    lay-Keeps s index q = elim (Bool-cases dry_run) [
      | inl d ↦ rw d q
      | inr d ↦ rw d (
          laid-Each Q dir bundle.to_text base content dry_run
            (candidate_name bundle.to_text base index)
            (atomic_write dir (candidate_name bundle.to_text base index) content none s)
            (write d _ content none (candidate updating path version index refl refl) s q))
    ]

    tried-Keeps :
        (s : State) (index : ℕ) (o : Result Text (Option Text)) (next : State × Result Text Text)
        → Q s
        → Q next.0
        → Q
            (tried dir bundle.to_text base content dry_run s
              (candidate_name bundle.to_text base index)
              o
              next).0
    tried-Keeps s index (err e) next q r = q
    tried-Keeps s index (ok none) next q r = lay-Keeps s index q
    tried-Keeps s index (ok (some bytes)) next q r = elim (Bool-cases (text_eq bytes content)) [
      | inl h ↦ rw h q
      | inr h ↦ rw h r
    ]

    try_names-Keeps :
        (left : ℕ) (s : State)
        → Q s
        → Q (try_names dir bundle.to_text base content dry_run left s).0
    try_names-Keeps zero s q = q
    try_names-Keeps (suc left) s q =
        tried-Keeps s (999 - left)
          (read_plain dir (candidate_name bundle.to_text base (999 - left)) max_file_bytes s.disk) _
          q (try_names-Keeps left s q)

    write_candidate-Keeps :
        (s : State) → Q s → Q (write_candidate dir bundle.to_text base content dry_run s).0
    unfolding write_candidate
    write_candidate-Keeps s q = try_names-Keeps 1000 s q

  abbrev Keeps : Progress → Type 0
  Keeps p =
      Q p.state
      × ((path h : Text) → recorded path p.files ≡ some h → IsDistributed bundle original path h)

  module _ (path content : Text)
      (version : is_version bundle.bundled_files path content ≡ true) where
    with_candidate-Keeps :
        (p : Progress) (entry : SkillFileReport) (r : State × Result Text Text)
        → Keeps p
        → Q r.0
        → Keeps (with_candidate dir bundle mode dry_run p entry r).0
    with_candidate-Keeps p entry (s, err e) k q = (q, k.1)
    with_candidate-Keeps p entry (s, ok name) k q = (q, k.1)

    record_hash-Keeps :
        (files : List (Text × Text))
        → ((key h : Text) → recorded key files ≡ some h → IsDistributed bundle original key h)
        → (key h : Text)
        → recorded key (record_hash path (content_hash bundle content) files) ≡ some h
        → IsDistributed bundle original key h
    record_hash-Keeps files known key h r =
        elim (recorded-record_hash path key (content_hash bundle content) h files r) [
          | inl (e, f) ↦
              subst (λ (k : Text). IsDistributed bundle original k h) e
                (bundled content version (sym f))
          | inr g ↦ known key h g
        ]

    manage_file-Keeps :
        (p : Progress) (action : Action) (r : State × Result Text (Unit {0}))
        → Keeps p
        → Q r.0
        → Keeps (manage_file dir bundle mode dry_run p path content action r).0
    manage_file-Keeps p action (s, err e) k q = (q, k.1)
    manage_file-Keeps p action (s, ok u) k q = elim (Bool-cases (is_managed action)) [
      | inl m ↦ rw m (q, record_hash-Keeps p.files k.1)
      | inr m ↦ elim (Bool-cases (is_update mode)) [
        | inl updating ↦
            rw (m, updating)
              (with_candidate-Keeps (record p { state = s })
                (new_report dir bundle mode dry_run path action)
                (write_candidate dir bundle.to_text (candidate_base bundle path) content dry_run s)
                (q, k.1) (write_candidate-Keeps path content version updating s q))
        | inr e ↦ rw (m, e) (q, k.1)
      ]
    ]

    allowed_write :
        (p : Progress) (current : Option Text)
        → Keeps p
        → is_writing (action_for bundle mode p.files path content current) ≡ true
        → IsAllowed bundle mode previous original path content current
    allowed_write p current k w = elim (action_for-eq bundle mode p.files path content current w) [
      | inl e ↦ install version e
      | inr (old, e, updating, known) ↦ upgrade updating version old e (
          is_known-IsDistributed bundle original p.files path old (k.1 path)
            (subst (λ (o : Option Text). is_known bundle p.files path o ≡ true) e known))
    ]

    reconcile_current-Keeps :
        (p : Progress) (o : Result Text (Option Text))
        → Keeps p
        → Keeps (reconcile_current dir bundle mode dry_run p path content o).0
    reconcile_current-Keeps p (err e) k = k
    reconcile_current-Keeps p (ok current) k =
        manage_file-Keeps p (action_for bundle mode p.files path content current)
          (write_when dir bundle mode dry_run
            (is_writing (action_for bundle mode p.files path content current)) path content current
            p.state)
          k (write_when-Keeps _ path content current p.state (allowed_write p current k) k.0)

  and_rest-Keeps :
      (r : Progress × Result Text (Unit {0})) (rest : Progress → Progress × Result Text (Unit {0}))
      → Keeps r.0
      → ((p : Progress) → Keeps p → Keeps (rest p).0)
      → Keeps (and_rest dir bundle mode dry_run r rest).0
  and_rest-Keeps (p, err e) rest k h = k
  and_rest-Keeps (p, ok u) rest k h = h p k

  reconcile_files-Keeps :
      (files : List (Text × Text))
      → ((path content : Text)
          → is_version files path content ≡ true
          → is_version bundle.bundled_files path content ≡ true)
      → (p : Progress) → Keeps p
      → Keeps (reconcile_files dir bundle mode dry_run files p).0
  unfolding reconcile_files reconcile_file
  reconcile_files-Keeps [] sub p k = k
  reconcile_files-Keeps ((path, content) ∷ more) sub p k =
      and_rest-Keeps (reconcile_file dir bundle mode dry_run p (path, content))
        (reconcile_files dir bundle mode dry_run more)
        (reconcile_current-Keeps path content (sub path content (is_version-head path content more))
          p (read_plain dir path max_file_bytes p.state.disk) k)
        (reconcile_files-Keeps more (λ q c h. sub q c (is_version-tail (path, content) more q c h)))

  finish_manifest-Keeps :
      (r : Progress × Result Text (Unit {0}))
      → Keeps r.0
      → Q (finish_manifest dir bundle mode dry_run previous r).0
  finish_manifest-Keeps (p, err e) k = k.0
  finish_manifest-Keeps (p, ok u) k =
      reported-Each Q dir bundle mode dry_run _ _
        (write_when dir bundle mode dry_run _ manifest_path _ previous p.state)
        (write_when-Keeps _ manifest_path _ previous p.state (λ h. manifest refl refl) k.0)

  pub reconcile-Keeps :
      (s : State) (m : Manifest)
      → read_plain dir manifest_path max_manifest_bytes s.disk ≡ ok previous
      → accept_manifest bundle (load_manifest bundle previous) ≡ ok m
      → m.files ≡ original
      → Q s
      → Q (reconcile dir bundle mode dry_run s).0
  unfolding reconcile
  reconcile-Keeps s m r a e q =
      simp (r, a)
        (finish_manifest-Keeps
          (reconcile_files dir bundle mode dry_run bundle.bundled_files
            (record { state = s; files = m.files; reports = [] }))
          (reconcile_files-Keeps bundle.bundled_files (λ p c h. h)
            (record { state = s; files = m.files; reports = [] })
            (
              q,
              λ path h f.
                  baseline (subst (λ (l : List (Text × Text)). recorded path l ≡ some h) e f),
            )))

-- Every write of a run of `reconcile` on an accepted manifest, also of one that fails halfway and
-- whatever others do to the files while one is staged, is a bundled file where none is, a bundled
-- version (in an update only) over content whose hash the manifest records, an old release has or a
-- bundled version has, the incoming version under a free candidate name (in an update only), or the
-- manifest over the very bytes that were read. A dry run has no write.
pub reconcile-writes :
    (dir : Directory) (bundle : Bundle) (mode : InstallMode) (dry_run : Bool)
    (previous : Option Text) (m : Manifest) (s : State)
    → read_plain dir manifest_path max_manifest_bytes s.disk ≡ ok previous
    → accept_manifest bundle (load_manifest bundle previous) ≡ ok m
    → s.writes ≡ []
    → Each
        (λ w. (dry_run ≡ false) × IsAllowed bundle mode previous m.files w.path w.new w.old)
        (reconcile dir bundle mode dry_run s).0.writes
reconcile-writes dir bundle mode dry_run previous m s r a e =
    let Good : Write → Type 0 =
      λ w. (dry_run ≡ false) × IsAllowed bundle mode previous m.files w.path w.new w.old in
    reconcile-Keeps dir bundle mode dry_run previous m.files (Holds Good)
      (λ d path new old allowed t h. atomic_write-Each Good dir path new old (d, allowed) t h) s m r
      a refl (rw e tt)
