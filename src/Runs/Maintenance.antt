-- ===== src/Runs/Maintenance.antt =====
-- tactus-runtime/src/runs.rs: which runs `archive` and `gc` may touch, and what they do with those that
-- a confirmed call planned.
pub mod Safety
use agenstro.Common.{
  ℕ, Bool, true, false, ◌&&◌, ◌||◌, not, Option, none, some, is_some, is_some_and, is_none_or,
  Result, ok, err, List, [], ◌∷◌, ◌++◌, leb, ltb, if◌then◌else◌,
}
use agenstro.Common.Text.{Text, lit}
use agenstro.JournalReader.{ReadError, EventRead}
use agenstro.Journal.Summary.{RunSummary}
use agenstro.Runs.{
  RunRecord, RunIntegrity, intact, partly, corrupt, RunsError, inspect_run, is_empty_list,
}

pub data Operation : Type 0 where
  archive gc : Operation

pub record MaintenanceAction : Type 0 where
  pub run_id : Text
  pub action : Text

pub record MaintenanceProtection : Type 0 where
  pub run_id : Text
  pub reason : Text

pub record MaintenanceReport : Type 0 where
  pub actions : List MaintenanceAction
  pub protected : List MaintenanceProtection

abbrev pub is_intact : RunIntegrity → Bool
is_intact intact = true
is_intact _ = false

unfoldable pub eligible_for_maintenance : RunRecord → Option ℕ → Bool
eligible_for_maintenance r before =
    is_intact r.integrity
    && not r.protected
    && is_some r.finished_unix_ms
    && is_none_or (λ b. is_some_and (λ t. ltb t b) r.finished_unix_ms) before

abbrev first_reason : List Text → RunIntegrity → Text
first_reason (s ∷ ss) i = s
first_reason [] intact = lit "run_changed_or_no_longer_eligible"
first_reason [] partly = lit "open"
first_reason [] corrupt = lit "corrupt"

unfoldable pub protection_reason : RunRecord → Text
protection_reason r = first_reason r.protection_reasons r.integrity

abbrev pub changed : Text
changed = lit "run_changed_or_became_unsafe"

abbrev planned_action : Operation → Bool → Text
planned_action archive false = lit "would_archive"
planned_action archive true = lit "archive"
planned_action gc false = lit "would_delete"
planned_action gc true = lit "delete"

abbrev pub comparison_time : RunRecord → ℕ
comparison_time r = elim r.finished_unix_ms [ none ↦ r.started_unix_ms | some t ↦ t ]

abbrev pub acts : Text → Text → MaintenanceReport → MaintenanceReport
acts id what m = record m { actions = record { run_id = id; action = what } ∷ m.actions }

abbrev pub protects : Text → Text → MaintenanceReport → MaintenanceReport
protects id why m = record m { protected = record { run_id = id; reason = why } ∷ m.protected }

-- Each run with whether `validate_run_tree_for_mutation` accepts its directory.
unfoldable pub maintenance_plan :
    Operation → Bool → Option ℕ → List (RunRecord × Bool) → MaintenanceReport
maintenance_plan op confirmed before [] = record { actions = []; protected = [] }
maintenance_plan op confirmed before ((r, safe) ∷ rs) =
    let rest = maintenance_plan op confirmed before rs in
    if is_some_and (λ b. leb b (comparison_time r)) before
    then rest
    else if eligible_for_maintenance r before
    then (if safe
        then acts r.run_id (planned_action op confirmed) rest
        else protects r.run_id changed rest)
    else protects r.run_id (protection_reason r) rest

-- What is found when the turn of a planned run comes: its summary and events as they are now, whether
-- the tree is accepted, whether the archive has such a run, and the result of `fs::rename` or of
-- `fs::remove_dir_all`.
pub record Finding (N : Type 0) : Type 0 where
  pub started : ℕ
  pub summary : Result RunsError (Option (RunSummary N))
  pub reads : List (Result ReadError (EventRead N))
  pub safe : Bool
  pub destination_exists : Bool
  pub moved : Result Text (Unit {0})

-- The loop's report, newest entry first; the error that ended it; and the runs that it set out to move
-- or to delete, also when that failed, since a failed `fs::remove_dir_all` may have removed a part.
pub record Sweep : Type 0 where
  pub report : MaintenanceReport
  pub failed : Option RunsError
  pub swept : List Text

abbrev done_action : Operation → Text
done_action archive = lit "archived"
done_action gc = lit "deleted"

abbrev pub sweep_run : Operation → Text → Result Text (Unit {0}) → Sweep → Sweep
sweep_run op id (ok u) d = record d {
  report = acts id (done_action op) d.report;
  swept = id ∷ d.swept;
}
sweep_run op id (err e) d = record d { failed = some (RunsError.io e); swept = id ∷ d.swept }

abbrev pub destination_taken : Operation → Bool → Bool
destination_taken archive exists = exists
destination_taken gc exists = false

module _ {N : Type 0} where
  abbrev pub sweep_inspected :
      Operation → Option ℕ → Text → Finding N → Result RunsError RunRecord → Sweep → Sweep
  sweep_inspected op before id f (err e) d = record d { report = protects id changed d.report }
  sweep_inspected op before id f (ok r) d =
      if eligible_for_maintenance r before
      then (if f.safe
          then (if destination_taken op f.destination_exists
              then record d { report = protects id (lit "archive_destination_exists") d.report }
              else sweep_run op id f.moved d)
          else record d { report = protects id changed d.report })
      else record d { report = protects id (protection_reason r) d.report }

  unfoldable pub sweep_one : Operation → Option ℕ → Text → Finding N → Sweep → Sweep
  sweep_one op before id f d =
      sweep_inspected op before id f (inspect_run id f.started f.summary f.reads) d

  unfoldable pub sweep_planned :
      Operation → Option ℕ → (Text → Finding N) → List MaintenanceAction → Sweep → Sweep
  sweep_planned op before find [] d = d
  sweep_planned op before find (a ∷ rest) d =
      let go = sweep_planned op before find rest (sweep_one op before a.run_id (find a.run_id) d) in
      if is_some d.failed then d else go

  -- `archive` and `gc` differ in the root that they scan, in the cut-off, which `archive` always has,
  -- and in what they do with a run.
  unfoldable pub maintain :
      Operation → Bool → Option ℕ → List (RunRecord × Bool) → (Text → Finding N) → Sweep
  maintain op confirmed before scanned find =
      let plan = maintenance_plan op confirmed before scanned in
      if not confirmed || is_empty_list plan.actions
      then record { report = plan; failed = none; swept = [] }
      else sweep_planned op before find plan.actions
          (record { report = record plan { actions = [] }; failed = none; swept = [] })
