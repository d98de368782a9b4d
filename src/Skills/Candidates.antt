-- ===== src/Skills/Candidates.antt =====
-- tactus-runtime/src/skills.rs: the incoming version of a file that was changed locally is laid beside
-- it, under a name that is free or has the same content.
use agenstro.Common.{
  ℕ, zero, suc, ◌-◌, Bool, Option, none, some, Result, ok, err, ◌++◌, ◌==◌, if◌then◌else◌,
}
use agenstro.Common.Text.{Text, lit, text_eq}
use agenstro.Skills.Files.{State, Directory, read_plain, atomic_write, max_file_bytes}

abbrev pub candidate_name : (ℕ → Text) → Text → ℕ → Text
candidate_name to_text base index =
    if index == 0 then base ++ lit ".incoming" else base ++ (lit ".incoming." ++ to_text index)

module _ (dir : Directory) (to_text : ℕ → Text) (base content : Text) (dry_run : Bool) where
  abbrev pub laid : Text → State × Result Text (Unit {0}) → State × Result Text Text
  laid name (s, err e) = (s, err e)
  laid name (s, ok u) = (s, ok name)

  abbrev pub lay : State → Text → State × Result Text Text
  lay s name = if dry_run then (s, ok name) else laid name (atomic_write dir name content none s)

  abbrev pub tried :
      State → Text → Result Text (Option Text) → State × Result Text Text → State × Result Text Text
  tried s name (err e) next = (s, err e)
  tried s name (ok none) next = lay s name
  tried s name (ok (some bytes)) next = if text_eq bytes content then (s, ok name) else next

  -- The loop over the names that are left, the last of which has the number 999.
  abbrev pub try_names : ℕ → State → State × Result Text Text
  try_names zero s = (s, err (lit "too many locally modified incoming skill candidates"))
  try_names (suc left) s =
      let name = candidate_name to_text base (999 - left) in
      let next = try_names left s in tried s name (read_plain dir name max_file_bytes s.disk) next

  unfoldable pub write_candidate : State → State × Result Text Text
  unfolding read_plain atomic_write
  write_candidate s = try_names 1000 s
