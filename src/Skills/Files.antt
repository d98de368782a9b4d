-- ===== src/Skills/Files.antt =====
-- tactus-runtime/src/skills.rs: how the files of a workspace are read and replaced. Between the reading
-- of a file and its replacement, others may change the files: what they do is an
-- argument. The text of an error names no path.
use agenstro.Common.{
  ℕ, Bool, true, false, Option, none, some, Result, ok, err, List, [], ◌∷◌, ltb, length,
  if◌then◌else◌,
}
use agenstro.Common.Text.{Text, lit, text_eq}

abbrev pub max_file_bytes : ℕ
max_file_bytes = 262144

abbrev pub max_manifest_bytes : ℕ
max_manifest_bytes = 1048576

-- The content of each path, if it is there.
abbrev pub Disk : Type 0
Disk = Text → Option Text

-- Why a path is refused: a link among its directories, or no plain file.
pub record Directory : Type 0 where
  pub linked : Text → Option Text
  pub special : Text → Option Text

-- What others do while a file is staged, and how the staging ends.
pub record Interference : Type 0 where
  pub edit : Disk → Disk
  pub staged : Result Text (Unit {0})

-- A replacement, and what it replaced.
pub record Write : Type 0 where
  pub path : Text
  pub old : Option Text
  pub new : Text

-- The writes are the latest first. Without an interference in the list, there is none.
pub record State : Type 0 where
  pub disk : Disk
  pub writes : List Write
  pub later : List Interference

abbrev bounded : ℕ → Option Text → Result Text (Option Text)
bounded limit none = ok none
bounded limit (some bytes) =
    if ltb limit (length bytes) then err (lit "file exceeds the limit") else ok (some bytes)

abbrev unless_special : Option Text → Result Text (Option Text) → Result Text (Option Text)
unless_special none q = q
unless_special (some reason) q = err reason

-- `fs::symlink_metadata` finds a special file too; the size is checked before and after reading.
unfoldable pub read_plain : Directory → Text → ℕ → Disk → Result Text (Option Text)
read_plain dir path limit disk =
    unless_special (dir.linked path) (unless_special (dir.special path) (bounded limit (disk path)))

abbrev pub same_content : Option Text → Option Text → Bool
same_content none none = true
same_content (some a) (some b) = text_eq a b
same_content _ _ = false

abbrev pub put : Text → Text → Disk → Disk
put path bytes disk p = if text_eq p path then some bytes else disk p

abbrev pub replace : Text → Text → State → State
replace path bytes s = record s {
  disk = put path bytes s.disk;
  writes = record { path = path; old = s.disk path; new = bytes } ∷ s.writes;
}

-- A comparison of the file with what is expected there, and what follows it.
abbrev pub checked :
    Option Text
    → Text
    → Result Text (Option Text)
    → State
    → State × Result Text (Unit {0})
    → State × Result Text (Unit {0})
checked expected reason (err e) s next = (s, err e)
checked expected reason (ok now) s next =
    if same_content now expected then next else (s, err reason)

module _ (dir : Directory) (path bytes : Text) (expected : Option Text) where
  -- The last check and the renaming.
  abbrev pub persist : State → State × Result Text (Unit {0})
  persist s =
      checked expected (lit "file changed while staging skill update; retry after reviewing it")
        (read_plain dir path max_manifest_bytes s.disk) s (replace path bytes s, ok tt)

  abbrev pub stage : State → List Interference → State × Result Text (Unit {0})
  stage s [] = persist s
  stage s (i ∷ more) = elim i.staged as (λ q. State × Result Text (Unit {0})) [
    | err e ↦ (record s { disk = i.edit s.disk; later = more }, err e)
    | ok u ↦ persist (record s { disk = i.edit s.disk; later = more })
  ]

  unfoldable pub atomic_write : State → State × Result Text (Unit {0})
  unfolding read_plain
  atomic_write s =
      checked expected (lit "file changed during skill update; retry after reviewing it")
        (read_plain dir path max_manifest_bytes s.disk) s (stage s s.later)
